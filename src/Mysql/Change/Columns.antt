-- ===== src/Mysql/Change/Columns.antt =====
-- db/dialect/mysql/insert.go, update.go; orm/save.go: a `?` for each value.
use entix.Prelude.{
  ℕ, ◌≡◌, refl, sym, ◌∙◌, ◌<>◌, List, [], ◌∷◌, map, length, Outcome, panic, Value, join, show,
  arith, Ensures, Ensures->>=, Ensures-map, Ensures-any,
}
use entix.Table.{Table}
use entix.Data.{Field}
use entix.Mysql.Where.Marks.{marks, marks-append, marks_all, marks-join, marks-show}
use entix.Mysql.Change.{
  insert_fields, insert_value_symbols, build_insert_sql, set_fields, update_set_fields,
  build_update_sql,
}
use entix.Orm.Convert.{make_field_value, make_field_values}

-- The columns of the fields have names without `?`.
abbrev pub Bare : List Field → Type 0
Bare [] = Unit
Bare (f ∷ fs) = (marks f.column.name ≡ 0) × Bare fs

marks-names : (fs : List Field) → Bare fs → marks_all (map (λ f. f.column.name) fs) ≡ 0
marks-names [] h = refl
marks-names (f ∷ fs) (h, more) = omega (arith, h, marks-names fs more)

marks-symbols : (fs : List Field) → marks_all (map (λ f. "?") fs) ≡ length fs
marks-symbols [] = refl
marks-symbols (f ∷ fs) = omega (arith, marks-symbols fs)

marks-sets :
    (fs : List Field) → Bare fs → marks_all (map (λ f. f.column.name <> "=?") fs) ≡ length fs
marks-sets [] h = refl
marks-sets (f ∷ fs) (h, more) =
    omega (arith, h, marks-append f.column.name "=?", marks-sets fs more)

marks-build_insert_sql :
    (fs : List Field) (t : Table)
    → marks t.name ≡ 0
    → Bare fs
    → marks (build_insert_sql fs t) ≡ length fs
unfolding build_insert_sql insert_fields insert_value_symbols
marks-build_insert_sql fs t ht h =
    let names = join "," (map (λ (f : Field). f.column.name) fs) in
    let symbols = join "," (map (λ (f : Field). "?") fs) in
    omega (
      arith,
      ht,
      marks-append "INSERT INTO `"
          (t.name <> ("`(" <> (names <> (") VALUES(" <> (symbols <> ")"))))),
      marks-append t.name ("`(" <> (names <> (") VALUES(" <> (symbols <> ")")))),
      marks-append "`(" (names <> (") VALUES(" <> (symbols <> ")"))),
      marks-append names (") VALUES(" <> (symbols <> ")")),
      marks-append ") VALUES(" (symbols <> ")"),
      marks-append symbols ")",
      marks-join "," (map (λ (f : Field). f.column.name) fs) refl,
      marks-join "," (map (λ (f : Field). "?") fs) refl,
      marks-names fs h,
      marks-symbols fs,
    )

-- An UPDATE, where one is built.
marks-build_update_sql :
    (id : ℕ) (fs : List Field) (t : Table)
    → marks t.name ≡ 0
    → Bare fs
    → Ensures (build_update_sql id fs t) (λ sql. marks sql ≡ length fs)
unfolding build_update_sql update_set_fields set_fields
marks-build_update_sql id [] t ht h = tt
marks-build_update_sql id (f ∷ fs) t ht h =
    let sets = join "," (map (λ (g : Field). g.column.name <> "=?") (f ∷ fs)) in
    omega (
      arith,
      ht,
      marks-append "UPDATE `" (t.name <> ("` SET " <> (sets <> (" WHERE ID = " <> show id)))),
      marks-append t.name ("` SET " <> (sets <> (" WHERE ID = " <> show id))),
      marks-append "` SET " (sets <> (" WHERE ID = " <> show id)),
      marks-append sets (" WHERE ID = " <> show id),
      marks-append " WHERE ID = " (show id),
      marks-show id,
      marks-join "," (map (λ (g : Field). g.column.name <> "=?") (f ∷ fs)) refl,
      marks-sets (f ∷ fs) h,
    )

module _ (marshal save_file : Value → Outcome Value) where
  length-make_field_values :
      (fs : List Field)
      → Ensures (make_field_values marshal save_file fs) (λ vs. length vs ≡ length fs)
  unfolding make_field_values
  length-make_field_values [] = refl
  length-make_field_values (f ∷ fs) =
      Ensures->>= (λ _. Unit {0}) (λ vs. length vs ≡ length (f ∷ fs))
        (make_field_value marshal save_file f) _ (Ensures-any _)
        (λ v _.
          Ensures->>= (λ vs. length vs ≡ length fs) (λ vs. length vs ≡ length (f ∷ fs))
            (make_field_values marshal save_file fs) _ (length-make_field_values fs)
            (λ vs e. omega (arith, e)))

  -- If neither the table's name nor the columns' contain a `?`, INSERT and UPDATE have as many `?` as
  -- there are values sent with them; an UPDATE of no field panics.
  pub build_insert_sql-fills :
      (id : ℕ) (fs : List Field) (t : Table)
      → marks t.name ≡ 0
      → Bare fs
      → Ensures (make_field_values marshal save_file fs) (λ vs.
        (marks (build_insert_sql fs t) ≡ length vs)
        × Ensures (build_update_sql id fs t) (λ sql. marks sql ≡ length vs))
        × (build_update_sql id [] t ≡ panic "No update fields")
  unfolding build_update_sql update_set_fields
  build_insert_sql-fills id fs t ht h = (
    Ensures-map (λ vs. length vs ≡ length fs) _ (make_field_values marshal save_file fs)
        (length-make_field_values fs)
        (λ vs e. (
          marks-build_insert_sql fs t ht h ∙ sym e,
          Ensures-map (λ sql. marks sql ≡ length fs) (λ sql. marks sql ≡ length vs)
              (build_update_sql id fs t) (marks-build_update_sql id fs t ht h) (λ sql k. k ∙ sym e),
        )),
    refl,
  )
