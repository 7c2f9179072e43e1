-- ===== src/Mysql/Change.antt =====
-- db/dialect/mysql/insert.go, update.go, delete.go, and BuildQueryPovitSQL of query.go: the statements
-- that save and delete.
pub mod Columns
use entix.Prelude.{
  ℕ, String, ◌<>◌, List, [], ◌∷◌, map, Option, none, some, Outcome, ok, panic, ◌>>=◌, join, show,
  is_empty, if◌then◌else◌,
}
use entix.Consts
use entix.Table.{Column, Table}
use entix.Data.{Field}
use entix.Data.Povit.{AssociationPovit, PovitField, table_of}

unfoldable pub insert_fields : List Field → String
unfolding join
insert_fields fs = join "," (map (λ f. f.column.name) fs)

unfoldable pub insert_value_symbols : List Field → String
unfolding join
insert_value_symbols fs = join "," (map (λ f. "?") fs)

unfoldable pub build_insert_sql : List Field → Table → String
unfolding insert_fields insert_value_symbols
build_insert_sql fs t =
    "INSERT INTO `"
    <> (t.name <> ("`(" <> (insert_fields fs <> (") VALUES(" <> (insert_value_symbols fs <> ")")))))

-- `povit.Source.Column.Name`, where the column may be nil.
unfoldable pub column_name : PovitField → Outcome String
column_name f = elim f.column [ none ↦ panic "nil pointer dereference" | some c ↦ ok c.name ]

unfoldable pub build_insert_povit_sql : AssociationPovit → Outcome String
unfolding column_name table_of show
build_insert_povit_sql p = do
  source ← column_name p.source
  target ← column_name p.target
  ok (
      "INSERT INTO `"
      <> ((table_of p.association).name
          <> ("`("
              <> (source
                  <> (","
                      <> (target
                          <> (") VALUES("
                              <> (show p.source.value
                                  <> (", " <> (show p.target.value <> ")"))))))))))

unfoldable pub set_fields : List Field → String
unfolding join
set_fields fs = join "," (map (λ f. f.column.name <> "=?") fs)

-- `updateSetFields`
unfoldable pub update_set_fields : List Field → Outcome String
unfolding set_fields
update_set_fields fs = if is_empty fs then panic "No update fields" else ok (set_fields fs)

unfoldable pub build_update_sql : ℕ → List Field → Table → Outcome String
unfolding update_set_fields show
build_update_sql id fs t = do
  sets ← update_set_fields fs
  ok ("UPDATE `" <> (t.name <> ("` SET " <> (sets <> (" WHERE ID = " <> show id)))))

unfoldable pub build_delete_sql : ℕ → String → String
unfolding show
build_delete_sql id table_name =
    "DELETE FROM `" <> (table_name <> ("` WHERE (`" <> ("id" <> ("` = '" <> (show id <> "')")))))

-- `now` is what `%s` writes for the time.
unfoldable pub build_soft_delete_sql : String → ℕ → String → String
unfolding show
build_soft_delete_sql now id table_name =
    "UPDATE `"
    <> (table_name
        <> ("` SET `"
            <> (Consts.deleted_at
                <> ("` = '" <> (now <> ("' WHERE (`" <> ("id" <> ("` = " <> (show id <> ")")))))))))

-- The condition that names a row of a pivot table.
unfoldable pub povit_condition : String → String → AssociationPovit → String
unfolding show
povit_condition source target p =
    " WHERE (`"
    <> (source
        <> ("` = "
            <> (show p.source.value
                <> (" AND `" <> (target <> ("` = " <> (show p.target.value <> ")")))))))

unfoldable pub build_delete_povit_sql : AssociationPovit → Outcome String
unfolding column_name povit_condition table_of
build_delete_povit_sql p = do
  source ← column_name p.source
  target ← column_name p.target
  ok (
      "DELETE FROM `"
      <> ((table_of p.association).name <> ("`" <> povit_condition source target p)))

unfoldable pub build_check_povit_sql : AssociationPovit → Outcome String
unfolding column_name povit_condition table_of
build_check_povit_sql p = do
  source ← column_name p.source
  target ← column_name p.target
  ok (
      "SELECT count("
      <> (source
          <> (") from `"
              <> ((table_of p.association).name <> ("`" <> povit_condition source target p)))))

unfoldable pub build_query_povit_sql : AssociationPovit → Outcome String
unfolding column_name povit_condition table_of
build_query_povit_sql p = do
  source ← column_name p.source
  target ← column_name p.target
  ok (
      "SELECT * FROM `"
      <> ((table_of p.association).name <> ("`" <> povit_condition source target p)))

unfoldable pub build_check_association_sql : ℕ → String → String → String
unfolding show
build_check_association_sql owner_id table_name owner_field_name =
    "SELECT count("
    <> (owner_field_name
        <> (") FROM `"
            <> (table_name
                <> ("` WHERE (`" <> (owner_field_name <> ("` = '" <> (show owner_id <> "')")))))))

unfoldable pub build_clear_association_sql : ℕ → String → String → String
unfolding show
build_clear_association_sql owner_id table_name owner_field_name =
    "DELETE FROM `"
    <> (table_name <> ("` WHERE (`" <> (owner_field_name <> ("` = '" <> (show owner_id <> "')")))))
