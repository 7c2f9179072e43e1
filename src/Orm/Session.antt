-- ===== src/Orm/Session.antt =====
-- orm/session.go, and the queries of orm/query.go and orm/delete.go through which saving and deleting
-- look at the database.
pub mod Within
use entix.Prelude.{
  ℕ, String, List, [], ◌∷◌, length, Option, none, some, Outcome, ok, err, panic, Value, num, int,
  obj, Fields, end, field, Bool, if◌then◌else◌,
}
use entix.Prelude
use entix.Consts
use entix.Db.{
  Statement, State, Ending, value, Driver, M, ◌>>=◌, done_with, fails, panic_with, lift, catch,
  exec, query, validate_db,
}
use entix.Db
use entix.Data.{Environment, AssociationRef, association_of, type_entity}
use entix.Data.Povit.{owner_column, type_column, table_of, PovitField}
use entix.Graph.{Entity}
use entix.Graph.Inherit.{all_attributes}
use entix.Mysql.Change.{column_name}
use entix.Mysql.Select.{build_query_associated_instances_sql, build_query_by_ids_sql}
use entix.Orm.Convert.{Reader, convert_rows, convert_row}
use entix.Orm.Query.{build_query_entity_records_sql}

-- What a session works with: the server, the environment of `entix.Data`, the model's entities, what
-- `%s` writes for the time and `%d` for a value that is no number, and the arguments of
-- `entix.Orm.Convert`.
pub record Context : Type 0 where
  pub driver : Driver
  pub environment : Environment
  pub heap : List Entity
  pub time_text : String
  pub verb_d : Value → String
  pub marshal : Value → Outcome Value
  pub save_file : Value → Outcome Value
  pub reader : Reader

abbrev pub no_args : String → Statement
no_args sql = record { sql = sql; args = [] }

-- `defer rows.Close()` stands before the test of the error, and closes nil.
unfoldable pub closes_nil {κ} : {V : Type κ} → String → M V
closes_nil message = panic_with "nil pointer dereference"

-- The number that the last row holds.
unfoldable pub count_of : List (List Value) → ℕ
count_of [] = 0
count_of ((num n ∷ []) ∷ []) = n
count_of ((int n ∷ []) ∷ []) = n
count_of (row ∷ rows) = count_of rows

-- `CreateId` hands out numbers, and the statement is built on the way.
abbrev pub Seeded : Type 0
Seeded = record { exp : record { text : String; params : List Value }; seed : ℕ }

abbrev pub with_built : Outcome Seeded → M Statement
with_built (ok q) s =
    (value (record { sql = q.exp.text; args = q.exp.params }), record s { id_seed = q.seed })
with_built (err message) s = (Db.error message, s)
with_built (panic message) s = (Db.panics message, s)

unfoldable pub with_seed : (ℕ → Outcome Seeded) → M Statement
with_seed build s = with_built (build s.id_seed) s

abbrev pub first_row : List (List Value) → Option (List Value)
first_row [] = none
first_row (row ∷ rows) = some row

module _ (x : Context) where
  -- `Exec`, where an error is raised.
  unfoldable pub exec_or_panic : String → M (Outcome ℕ)
  exec_or_panic sql = catch (exec x.driver (no_args sql)) panic_with

  unfoldable pub query_count : String → M ℕ
  unfolding count_of
  query_count sql = do
    rows ← catch (query x.driver (no_args sql)) closes_nil
    done_with (count_of rows)

  unfoldable pub convert_first : Entity → Option (List Value) → Outcome (Option Fields)
  unfolding convert_row all_attributes
  convert_first e none = ok none
  convert_first e (some row) =
      Prelude.◌>>=◌ (convert_row x.reader (all_attributes e) row end) λ m. ok (some m)

  -- `QueryOne`
  unfoldable pub query_one : Entity → Fields → M (Option Fields)
  unfolding build_query_entity_records_sql all_attributes convert_first with_seed
  query_one e args = do
    q ← with_seed (build_query_entity_records_sql x.verb_d x.heap e args (all_attributes e))
    rows ← catch (query x.driver q) panic_with
    lift (convert_first e (first_row rows))

  unfoldable pub query_one_by_id : Entity → Value → M (Option Fields)
  unfolding query_one
  query_one_by_id e id =
      query_one e
        (field Consts.arg_where (obj (field Consts.id (obj (field Consts.arg_eq id end)) end)) end)

  unfoldable pub query_associated_instances : AssociationRef → ℕ → M (List Fields)
  unfolding convert_rows all_attributes build_query_associated_instances_sql owner_column
      type_column column_name table_of type_entity
  query_associated_instances r owner_id = do
    e ← lift (type_entity x.heap (association_of r))
    owner ← lift (column_name (record { column = owner_column r; value = 0 }))
    type ← lift (column_name (record { column = type_column r; value = 0 }))
    rows ←
        catch
          (query x.driver (
            no_args (build_query_associated_instances_sql e owner_id (table_of r).name owner type)))
          closes_nil
    lift (convert_rows x.reader (all_attributes e) rows)

  unfoldable pub query_by_ids : Entity → List Value → M (List Fields)
  unfolding convert_rows all_attributes build_query_by_ids_sql
  query_by_ids e ids = do
    rows ←
        catch (query x.driver (record { sql = build_query_by_ids_sql e (length ids); args = ids }))
          closes_nil
    lift (convert_rows x.reader (all_attributes e) rows)
