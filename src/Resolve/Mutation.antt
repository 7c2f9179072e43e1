-- ===== src/Resolve/Mutation.antt =====
-- modules/app/resolve/mutation.go. The context of a call is the user and the number of the app.
pub mod Idle
use entix.Prelude.{
  ℕ, String, List, [], ◌∷◌, ◌++◌, length, Option, none, some, Outcome, ok, Value, null, num, str,
  Fields, end, field, get, put, to_list, to_map,
}
use entix.Prelude
use entix.Consts
use entix.Db.{M, ◌>>=◌, ◌>>◌, done_with, panic_with, lift, catch}
use entix.Data.{Instance, Environment, parsed, convert_id, new_instance}
use entix.Graph.{Entity}
use entix.Orm.Session.{Context}
use entix.Service.Query.{User}
use entix.Service.Read.{new_service, query_entity}
use entix.Service.Change.{save, save_single, delete_instances, delete_single}
use entix.Resolve.{Answer, Affected, object_posted, object_deleted, objects_posted, objects_deleted}

-- `result.(map[string]interface{})`
unfoldable pub asserted_row : Option Fields → M Fields
asserted_row none = panic_with "interface conversion"
asserted_row (some m) = done_with m

module _ (x : Context) where
  -- `ConvertObjectId`
  unfoldable pub convert_object_id : Value → Fields → Outcome Fields
  unfolding put parsed
  convert_object_id (str text) m =
      Prelude.◌>>=◌ (parsed x.environment (x.environment.parse_uint 10 text))
        λ id. ok (put Consts.id (num id) m)
  convert_object_id _ m = ok m

  unfoldable pub posted_instance : Entity → Fields → Outcome Instance
  unfolding convert_object_id get new_instance
  posted_instance e m =
      Prelude.◌>>=◌ (convert_object_id (get m Consts.id) m)
        λ n. new_instance x.environment x.heap n e

  -- The loops over the objects.
  unfoldable pub posted_instances : Entity → List Value → Outcome (List Instance)
  unfolding posted_instance
  posted_instances e [] = ok []
  posted_instances e (v ∷ vs) = Prelude.◌>>=◌ (to_map v) λ m.
      Prelude.◌>>=◌ (posted_instance e m)
        λ i. Prelude.◌>>=◌ (posted_instances e vs) λ is. ok (i ∷ is)

  -- One instance for each key that is set, each with the keys before it.
  unfoldable pub set_keys : Entity → Fields → Fields → Outcome (List Instance)
  unfolding put new_instance
  set_keys e object end = ok []
  set_keys e object (field key v set) =
      Prelude.◌>>=◌ (new_instance x.environment x.heap (put key v object) e)
        λ i. Prelude.◌>>=◌ (set_keys e (put key v object) set) λ is. ok (i ∷ is)

  unfoldable pub set_instances : Entity → Fields → List Fields → Outcome (List Instance)
  unfolding set_keys get
  set_instances e set [] = ok []
  set_instances e set (m ∷ ms) =
      Prelude.◌>>=◌ (set_keys e (field Consts.id (get m Consts.id) end) set)
        λ is. Prelude.◌>>=◌ (set_instances e set ms) λ more. ok (is ++ more)

  unfoldable pub identified : Entity → Value → Outcome Instance
  unfolding convert_id new_instance
  identified e id =
      Prelude.◌>>=◌ (convert_id x.environment id)
        λ n. new_instance x.environment x.heap (field Consts.id (num n) end) e

  unfoldable pub deleted_instances : Entity → List Fields → Outcome (List Instance)
  unfolding identified get
  deleted_instances e [] = ok []
  deleted_instances e (m ∷ ms) =
      Prelude.◌>>=◌ (identified e (get m Consts.id))
        λ i. Prelude.◌>>=◌ (deleted_instances e ms) λ is. ok (i ∷ is)

  module _ (unmarshal : String → Outcome Fields) (me : Option User) (app_id : ℕ) (fuel : ℕ) where
    -- `PostResolveFn`
    unfoldable pub post : Entity → Fields → M (Answer (List Fields))
    unfolding posted_instances get new_service save
    post e args = do
      objects ← lift (to_list (get args Consts.arg_objects))
      is ← lift (posted_instances e objects)
      new_service x me app_id
      rows ← save x fuel is
      done_with (record { reply = rows; told = some (objects_posted rows e) })

    -- `SetResolveFn`, which asks for rows with no field.
    unfoldable pub set_resolve : Entity → Fields → M (Answer Affected)
    unfolding set_instances get new_service query_entity save
    set_resolve e args = do
      set ← lift (to_map (get args Consts.arg_set))
      s ← new_service x me app_id
      r ← query_entity x unmarshal s e args []
      is ← lift (set_instances e set r.nodes)
      rows ← save x fuel is
      done_with
          (record { reply = record { returning = rows; affected_rows = length is }; told = none })

    -- `PostOneResolveFn`: with an error the result is nil, and the assertion panics.
    unfoldable pub post_one : Entity → Fields → M (Answer Fields)
    unfolding posted_instance get new_service save_single asserted_row
    post_one e args = do
      object ← lift (to_map (get args Consts.arg_object))
      i ← lift (posted_instance e object)
      new_service x me app_id
      result ← catch (save_single x fuel i) (λ _. done_with none)
      row ← asserted_row result
      done_with (record { reply = row; told = some (object_posted row e) })

    -- `DeleteByIdResolveFn`, likewise.
    unfoldable pub delete_by_id : Entity → Fields → M (Answer Fields)
    unfolding identified get new_service delete_single
    delete_by_id e args = do
      i ← lift (identified e (get args Consts.id))
      new_service x me app_id
      row ← catch (delete_single x fuel i) (λ _. panic_with "interface conversion")
      done_with (record { reply = row; told = some (object_deleted row e) })

    -- `DeleteResolveFn`, from the rows that it found.
    unfoldable pub delete_found : Entity → List Fields → M (Answer Affected)
    unfolding deleted_instances delete_instances
    delete_found e [] =
        done_with (record { reply = record { returning = []; affected_rows = 0 }; told = none })
    delete_found e (m ∷ ms) = do
      is ← lift (deleted_instances e (m ∷ ms))
      catch (delete_instances x fuel is) panic_with
      done_with (record {
        reply = record { returning = m ∷ ms; affected_rows = length is };
        told = some (objects_deleted (m ∷ ms) e);
      })

    unfoldable pub delete : Entity → Fields → M (Answer Affected)
    unfolding delete_found new_service query_entity
    delete e args = do
      s ← new_service x me app_id
      r ← query_entity x unmarshal s e args (Consts.id ∷ [])
      delete_found e r.nodes
