-- ===== src/Service/Read.antt =====
-- service/service.go, service/query.go: reading, with the rows that the database answers. The context of
-- a service is the user and the number of the app.
pub mod Keeps
use entix.Prelude.{
  ℕ, String, true, false, not, List, [], ◌∷◌, Option, none, some, Outcome, ok, panic, Value, str,
  num, obj, Fields, end, field, get, find_first, ◌=?◌, if◌then◌else◌,
}
use entix.Prelude
use entix.Consts
use entix.Db.{M, ◌>>=◌, ◌>>◌, done_with, panic_with, lift, catch, open_db}
use entix.Graph.{Entity, Association}
use entix.Graph.Inherit.{all_attributes}
use entix.Orm.Session.{Context, query_one}
use entix.Orm.Read.{Response, query_response, batch_real_associations}
use entix.Service.Query.{
  User, Service, Access, equals, merge_where_args, reads_all, auth_args, can_read_entity,
  choose_fields,
}

-- `GetEntityByName`, and the use of its result as a pointer.
unfoldable pub entity_by_name : List Entity → String → Outcome Entity
unfolding find_first
entity_by_name entities name = elim (find_first (λ e. e.domain.name =? name) entities) [
  | none ↦ panic "nil pointer dereference"
  | some e ↦ ok e
]

-- `role[consts.ID].(uint64)` of each row.
unfoldable pub asserted_id : Value → Outcome ℕ
asserted_id (num id) = ok id
asserted_id _ = panic "interface conversion"

unfoldable pub ids_of : List Fields → Outcome (List ℕ)
unfolding asserted_id get
ids_of [] = ok []
ids_of (row ∷ rows) =
    Prelude.◌>>=◌ (asserted_id (get row Consts.id))
      λ id. Prelude.◌>>=◌ (ids_of rows) λ ids. ok (id ∷ ids)

module _ (x : Context) where
  -- `orm.Open`, where an error is raised.
  unfoldable pub open_or_panic : M (Unit {0})
  open_or_panic = catch (open_db x.driver) panic_with

  unfoldable pub query_role_ids : Option User → M (List ℕ)
  unfolding entity_by_name all_attributes ids_of
  query_role_ids none = done_with (Consts.guest_role_id ∷ [])
  query_role_ids (some me) = do
    open_or_panic
    role ← lift (entity_by_name x.heap "Role")
    r ←
        query_response x role (field "users" (obj (field "id" (equals (str me.id)) end)) end)
          (all_attributes role)
    ids ← lift (ids_of r.nodes)
    done_with (Consts.guest_role_id ∷ ids)

  -- `New`
  unfoldable pub new_service : Option User → ℕ → M Service
  unfolding query_role_ids
  new_service me app_id = do
    ids ← query_role_ids me
    done_with (record { is_system = false; me = me; app_id = app_id; role_ids = ids })

  module _ (unmarshal : String → Outcome Fields) where
    -- The rows that `canReadEntity` asks for. An error of `Open` is logged, and the session is nil.
    unfoldable pub access_rows : Service → Entity → M (List Fields)
    unfolding reads_all auth_args entity_by_name all_attributes
    access_rows s e = if reads_all s then done_with [] else do
      catch (open_db x.driver) (λ _. panic_with "nil pointer dereference")
      auth ← lift (entity_by_name x.heap "ClassAuthConfig")
      r ← query_response x auth (auth_args s e) (all_attributes auth)
      done_with r.nodes

    unfoldable pub can_read : Service → Entity → M Access
    unfolding access_rows can_read_entity
    can_read s e = do
      rows ← access_rows s e
      lift (can_read_entity unmarshal (λ name args. ok rows) s e)

    unfoldable pub query_entity : Service → Entity → Fields → List String → M Response
    unfolding can_read merge_where_args choose_fields all_attributes
    query_entity s e args names = do
      access ← can_read s e
      if not access.can_read then panic_with "No access" else do
        open_or_panic
        query_response x e (merge_where_args args access.where_args)
            (choose_fields (all_attributes e) names)

    unfoldable pub query_one_entity : Service → Entity → Fields → M (Option Fields)
    unfolding can_read merge_where_args
    query_one_entity s e args = do
      access ← can_read s e
      if not access.can_read
          then panic_with "No access"
          else do open_or_panic; query_one x e (merge_where_args args access.where_args)

    unfoldable pub query_by_id : Service → Entity → ℕ → M (Option Fields)
    unfolding can_read merge_where_args query_one_entity
    query_by_id s e id = do
      access ← can_read s e
      if not access.can_read
          then panic_with "No access"
          else query_one_entity s e (
              merge_where_args
                (field Consts.arg_where (obj (field Consts.id (equals (num id)) end)) end)
                access.where_args)

  unfoldable pub batch_query_associations : Association → List ℕ → Fields → M (List Fields)
  unfolding open_or_panic batch_real_associations
  batch_query_associations a ids args = open_or_panic >> batch_real_associations x a ids args
