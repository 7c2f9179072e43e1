-- ===== src/Service/Change.antt =====
-- service/save.go, service/delete.go: saving and deleting, each call in a transaction of its own.
pub mod Transaction
pub mod Atomic
pub mod Refused
use entix.Prelude.{
  ℕ, List, [], ◌∷◌, ◌++◌, Option, none, some, Value, null, num, obj, String, Fields,
}
use entix.Db.{
  State, Ending, value, error, panics, exits, M, ◌>>=◌, ◌>>◌, done_with, fails, catch, open_db,
  begin_tx, commit, rollback, clear_tx,
}
use entix.Data.{Instance, id_of, entity_of, as_insert, map_of}
use entix.Orm.Session.{Context, query_by_ids, query_one_by_id}
use entix.Orm.Save.{save_one}
use entix.Orm.Delete.{delete_instance}

-- `defer`: the deferred call is made however the function ends, unless the process has ended. Its own
-- error is dropped, its panic takes the place of what the function came to.
abbrev pub concluding {κ} : {V : Type κ} → Ending V → Ending (Unit {0}) × State → Ending V × State
concluding r (value _, s) = (r, s)
concluding r (error _, s) = (r, s)
concluding r (panics message, s) = (panics message, s)
concluding r (exits message, s) = (exits message, s)

abbrev pub ending {κ} : {V : Type κ} → M (Unit {0}) → Ending V × State → Ending V × State
ending after (exits message, s) = (exits message, s)
ending after (value v, s) = concluding (value v) (after s)
ending after (error message, s) = concluding (error message) (after s)
ending after (panics message, s) = concluding (panics message) (after s)

unfoldable pub deferring {κ} : {V : Type κ} → M (Unit {0}) → M V → M V
deferring after m s = ending after (m s)

module _ (x : Context) where
  -- `session.Dbx.Rollback(); return nil, err`: the error of the rollback is dropped.
  unfoldable pub give_up {κ} : {V : Type κ} → String → M V
  unfolding catch ◌>>◌ ◌>>=◌ fails rollback done_with
  give_up message = catch (rollback x.driver) (λ _. done_with tt) >> fails message

  -- The loops of `Save` and `DeleteInstances`.
  unfoldable pub save_each : ℕ → List Instance → M (List Value)
  unfolding ◌>>=◌ catch done_with
  save_each fuel [] = done_with []
  save_each fuel (i ∷ is) = do
    id ← catch (save_one x fuel i) give_up
    ids ← save_each fuel is
    done_with (num id ∷ ids)

  unfoldable pub delete_each : ℕ → List Instance → M (List Value)
  unfolding ◌>>=◌ ◌>>◌ done_with
  delete_each fuel [] = done_with []
  delete_each fuel (i ∷ is) = do
    delete_instance x fuel i
    ids ← delete_each fuel is
    done_with (num (id_of i) ∷ ids)

  unfoldable pub saved_rows : List Instance → List Value → M (List Fields)
  unfolding done_with
  saved_rows [] ids = done_with []
  saved_rows (i ∷ is) ids = query_by_ids x (entity_of i) ids

  unfoldable pub committing {κ} : {V : Type κ} → M V → M V
  unfolding ◌>>=◌ ◌>>◌ done_with
  committing m = do v ← m; commit x.driver; done_with v

  -- `Save` and `SaveOne` defer `ClearTx` before they test the error of `BeginTx`.
  unfoldable pub save : ℕ → List Instance → M (List Fields)
  unfolding ◌>>=◌ ◌>>◌ catch deferring committing save_each saved_rows
  save fuel is =
      open_db x.driver
      >> deferring (clear_tx x.driver)
          (catch (begin_tx x.driver) give_up >> committing (save_each fuel is >>= saved_rows is))

  unfoldable pub save_single : ℕ → Instance → M (Option Fields)
  unfolding ◌>>=◌ ◌>>◌ catch deferring committing
  save_single fuel i =
      open_db x.driver
      >> deferring (clear_tx x.driver) (
          begin_tx x.driver
          >> committing (
              catch (save_one x fuel i) give_up >>= λ id. query_one_by_id x (entity_of i) (num id)))

  -- `InsertOne`
  unfoldable pub insert_single : ℕ → Instance → M (Option Fields)
  unfolding save_single as_insert
  insert_single fuel i = save_single fuel (as_insert i)

  unfoldable pub delete_instances : ℕ → List Instance → M (List Value)
  unfolding ◌>>=◌ ◌>>◌ deferring committing delete_each
  delete_instances fuel is =
      open_db x.driver
      >> begin_tx x.driver
      >> deferring (clear_tx x.driver) (committing (delete_each fuel is))

  unfoldable pub delete_single : ℕ → Instance → M Fields
  unfolding ◌>>=◌ ◌>>◌ deferring committing done_with
  delete_single fuel i =
      open_db x.driver
      >> begin_tx x.driver
      >> deferring (clear_tx x.driver)
          (committing (delete_instance x fuel i >>= λ _. done_with (map_of i)))
