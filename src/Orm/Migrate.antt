-- ===== src/Orm/Migrate.antt =====
-- orm/migrate.go: the statements of a migration, one after the other. `answer` stands for the
-- database: the error, if any, with which it answers a statement after those that it was sent before.
pub mod Rollback
pub mod Reports
use entix.Prelude.{ℕ, String, ◌<>◌, List, [], ◌∷◌, ◌++◌, Option, none, some}
use entix.Table.{Table}
use entix.Diff.{TableDiff, Diff}
use entix.Mysql.Migration.{
  ModifyAtom, build_delete_table_sql, build_create_table_sql, build_modify_table_atoms,
}

-- What was sent to the database, and `undoList`.
pub record Run : Type 0 where
  pub history : List String
  pub undo_list : List String

pub data Step : Type 0 where
  done : Run → Step
  failed : Run → String → Step

abbrev pub and_then : Step → (Run → Step) → Step
and_then (done r) next = next r
and_then (failed r message) next = failed r message

-- The text in front of the error.
abbrev pub labelled : String → Step → Step
labelled word (done r) = done r
labelled word (failed r message) = failed r (word <> message)

-- What a migration leaves behind, with the panic, if it ends in one.
abbrev pub Report : Type 0
Report = record { history : List String; panicked : Option String }

-- `rollback`, which goes on where an undo statement fails.
unfoldable pub rollback : List String → List String → List String
rollback [] history = history
rollback (sql ∷ undo_list) history = rollback undo_list (history ++ sql ∷ [])

abbrev pub conclude : Step → Report
conclude (done r) = record { history = r.history; panicked = none }
conclude (failed r message) = record {
  history = rollback r.undo_list r.history;
  panicked = some message;
}

-- A loop of `Migrage`.
unfoldable pub each {ℓ} : {A : Type ℓ} → (A → Run → Step) → List A → Run → Step
each act [] r = done r
each act (a ∷ more) r = and_then (act a r) (each act more)

module _ (format : String → String) (service : ℕ) where
  -- A table that is dropped is undone by creating it, and the other way round.
  abbrev pub drop : Table → ModifyAtom
  drop t = record {
    excute_sql = build_delete_table_sql t;
    undo_sql = build_create_table_sql format service t;
  }

  abbrev pub create : Table → ModifyAtom
  create t = record {
    excute_sql = build_create_table_sql format service t;
    undo_sql = build_delete_table_sql t;
  }

module _ (answer : List String → String → Option String) where
  -- A statement is sent; if it is accepted, its undo statement is noted.
  unfoldable pub exec : ModifyAtom → Run → Step
  exec a r =
      let sent = r.history ++ a.excute_sql ∷ [] in
      elim (answer r.history a.excute_sql) [
        | none ↦ done (record { history = sent; undo_list = r.undo_list ++ a.undo_sql ∷ [] })
        | some message ↦ failed (record { history = sent; undo_list = r.undo_list }) message
      ]

  unfoldable pub modify_table : TableDiff → Run → Step
  unfolding exec build_modify_table_atoms each
  modify_table d = each exec (build_modify_table_atoms d)

  module _ (format : String → String) (service : ℕ) where
    unfoldable pub delete_table : Table → Run → Step
    unfolding exec
    delete_table t = exec (drop format service t)

    unfoldable pub create_table : Table → Run → Step
    unfolding exec
    create_table t = exec (create format service t)

    -- The three loops.
    unfoldable pub delete_tables : List Table → Run → Step
    unfolding delete_table each
    delete_tables ts r = labelled "Delete table error:" (each delete_table ts r)

    unfoldable pub create_tables : List Table → Run → Step
    unfolding create_table each
    create_tables ts r = labelled "Create table error:" (each create_table ts r)

    unfoldable pub modify_tables : List TableDiff → Run → Step
    unfolding modify_table each
    modify_tables ds r = labelled "Modify table error:" (each modify_table ds r)

    unfoldable pub change_all : Diff → Run → Step
    unfolding delete_tables create_tables modify_tables
    change_all d r =
        and_then (delete_tables d.deleted_tables r)
          (λ u. and_then (create_tables d.added_tables u) (modify_tables d.modified_tables))

    -- `Migrage`, from the error of `Open`, if any: the session is nil then, and is used before the
    -- error is tested.
    unfoldable pub migrage : Option String → Diff → List String → Report
    unfolding change_all
    migrage (some error) d history = record {
      history = history;
      panicked = some "nil pointer dereference";
    }
    migrage none d history = conclude (change_all d (record { history = history; undo_list = [] }))
