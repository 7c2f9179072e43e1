-- ===== src/Mysql/Migration.antt =====
-- db/dialect/mysql/migration.go: the statements that change tables, each with the one that undoes it.
-- `format` is `fmt.Sprintf` of a text without operands, and `service` the number of the service.
use entix.Prelude.{
  ℕ, String, ◌<>◌, Bool, not, ◌&&◌, ◌||◌, List, [], ◌∷◌, ◌++◌, join, show, ltb, same_bool, ◌==◌,
  ◌=?◌, if◌then◌else◌,
}
use entix.Consts
use entix.Table.{Column, Table}
use entix.Utils.Id.{encode_base_id}
use entix.Diff.{ColumnDiff, TableDiff}
use entix.Mysql.ColumnType.{nullable_string, column_type_sql}

pub record ModifyAtom : Type 0 where
  pub excute_sql : String
  pub undo_sql : String

abbrev index_name : Column → String
index_name c = c.name <> "_idx"

unfoldable pub build_delete_table_sql : Table → String
build_delete_table_sql t = "DROP TABLE " <> t.name

-- The loops of `BuildCreateTableSQL` over the primary keys and the indices.
unfoldable pub primary_keys : List Column → List String
primary_keys [] = []
primary_keys (c ∷ cs) =
    let rest = primary_keys cs in
    if c.primary then ("PRIMARY KEY (" <> (c.name <> ")")) ∷ rest else rest

unfoldable pub indices : List Column → List String
indices [] = []
indices (c ∷ cs) =
    let rest = indices cs in
    if c.index then ("INDEX " <> (index_name c <> (" ( `" <> (c.name <> "`)")))) ∷ rest else rest

module _ (format : String → String) where
  unfoldable pub build_column_sql : Column → String
  unfolding column_type_sql
  build_column_sql c =
      let sql = "`" <> (c.name <> ("` " <> column_type_sql c)) in
      if c.name =? Consts.id then format (sql <> " AUTO_INCREMENT") else sql

  unfoldable pub column_sqls : List Column → List String
  unfolding build_column_sql nullable_string
  column_sqls [] = []
  column_sqls (c ∷ cs) = (build_column_sql c <> nullable_string c.nullable) ∷ column_sqls cs

  unfoldable pub build_create_table_sql : ℕ → Table → String
  unfolding column_sqls primary_keys indices encode_base_id
  build_create_table_sql service t =
      let pk =
        if not (t.pk_string =? "") then ("PRIMARY KEY (" <> (t.pk_string <> ")")) ∷ [] else [] in
      let fields = column_sqls t.columns ++ (primary_keys t.columns ++ (pk ++ indices t.columns)) in
      let sql = "CREATE TABLE `" <> (t.name <> ("` (" <> (join "," fields <> ")"))) in
      if ltb 0 t.entity_inner_id
      then sql
        <> (" AUTO_INCREMENT = " <> show (encode_base_id service t.entity_inner_id t.id_no_shift))
      else sql

unfoldable pub drop_index : String → Column → String
drop_index quoted c = "DROP INDEX " <> (index_name c <> (" ON " <> (quoted <> " ")))

unfoldable pub create_index : String → Column → String
create_index quoted c =
    "CREATE INDEX " <> (index_name c <> (" ON " <> (quoted <> (" (" <> (c.name <> ")")))))

abbrev quote : String → String
quote name = "`" <> (name <> "`")

abbrev when : Bool → ModifyAtom → List ModifyAtom
when b a = if b then a ∷ [] else []

unfoldable pub delete_column_atoms : String → List Column → List ModifyAtom
unfolding drop_index create_index column_type_sql
delete_column_atoms table [] = []
delete_column_atoms table (c ∷ cs) =
    when c.index
      (record { excute_sql = drop_index (quote table) c; undo_sql = create_index (quote table) c })
    ++ (record {
      excute_sql = "ALTER TABLE `" <> (table <> ("` DROP  `" <> (c.name <> "` ")));
      undo_sql =
          "ALTER TABLE `"
          <> (table <> ("` ADD COLUMN  `" <> (c.name <> ("` " <> column_type_sql c))));
    }
        ∷ delete_column_atoms table cs)

unfoldable pub add_column_atoms : String → List Column → List ModifyAtom
unfolding drop_index create_index column_type_sql nullable_string
add_column_atoms table [] = []
add_column_atoms table (c ∷ cs) =
    record {
      excute_sql =
          "ALTER TABLE "
          <> (table
              <> (" ADD COLUMN  `"
                  <> (c.name
                      <> ("` " <> (column_type_sql c <> (" " <> nullable_string c.nullable))))));
      undo_sql = "ALTER TABLE " <> (table <> (" DROP  " <> (c.name <> " ")));
    }
    ∷ (when c.index (record { excute_sql = create_index table c; undo_sql = drop_index table c })
        ++ add_column_atoms table cs)

unfoldable pub change_column : String → Column → Column → String
unfolding column_type_sql
change_column table from to =
    "ALTER TABLE `"
    <> (table
        <> ("` CHANGE COLUMN `"
            <> (from.name <> ("` `" <> (to.name <> ("` " <> column_type_sql to))))))

unfoldable pub modify_null : String → Column → Column → Bool → String
unfolding column_type_sql nullable_string
modify_null table named typed nullable =
    "ALTER TABLE `"
    <> (table
        <> ("` MODIFY  `"
            <> (named.name
                <> ("` " <> (column_type_sql typed <> (" " <> nullable_string nullable))))))

-- The condition for `CHANGE COLUMN`.
unfoldable pub type_changes : Column → Column → Bool
type_changes old new =
    not (old.name =? new.name)
    || not (old.type =? new.type)
    || not (old.length == new.length)
    || not (old.float_d == new.float_d)
    || not (old.float_m == new.float_m)
    || not (same_bool old.unsigned new.unsigned)

unfoldable pub modify_one_atoms : String → Column → Column → List ModifyAtom
unfolding drop_index create_index change_column modify_null type_changes
modify_one_atoms table old new =
    when old.index (record { excute_sql = drop_index table old; undo_sql = create_index table old })
    ++ (when (type_changes old new) (record {
      excute_sql = change_column table old new;
      undo_sql = change_column table new old;
    })
        ++ (when (not (same_bool old.nullable new.nullable)) (record {
          excute_sql = modify_null table new new new.nullable;
          undo_sql = modify_null table new old (not new.nullable);
        })
            ++ when new.index
                (record { excute_sql = create_index table new; undo_sql = drop_index table new })))

unfoldable pub modify_column_atoms : String → List ColumnDiff → List ModifyAtom
unfolding modify_one_atoms
modify_column_atoms table [] = []
modify_column_atoms table (d ∷ ds) =
    modify_one_atoms table d.old_column d.new_column ++ modify_column_atoms table ds

abbrev rename_table : String → String → String
rename_table from to = "ALTER TABLE " <> (from <> (" RENAME TO " <> (to <> " ")))

unfoldable pub build_modify_table_atoms : TableDiff → List ModifyAtom
unfolding delete_column_atoms add_column_atoms modify_column_atoms
build_modify_table_atoms d =
    let old = d.old_table in
    let new = d.new_table in
    when (not (old.pk_string =? "") && not (new.pk_string =? "")) (record {
      excute_sql =
          "ALTER TABLE "
          <> (old.name <> (" DROP  PRIMARY  KEY, ADD PRIMARY KEY (" <> (old.pk_string <> ")")));
      undo_sql =
          "ALTER TABLE "
          <> (new.name <> (" DROP  PRIMARY  KEY,ADD PRIMARY KEY (" <> (new.pk_string <> ") ")));
    })
    ++ (when (not (old.name =? new.name)) (record {
      excute_sql = rename_table old.name new.name;
      undo_sql = rename_table new.name old.name;
    })
        ++ (delete_column_atoms new.name d.delete_columns
            ++ (add_column_atoms new.name d.add_columns
                ++ modify_column_atoms new.name d.modify_columns)))
