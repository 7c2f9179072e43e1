-- ===== src/Service/Read/Keeps.antt =====
-- service/service.go, service/query.go: reading keeps what is stored.
use entix.Prelude.{ℕ, String, List, Option, none, some, Outcome, Fields, not}
use entix.Db.{State}
use entix.Graph.{Entity, Association}
use entix.Orm.Session.{Context}
use entix.Orm.Read.Keeps.{
  Kept, Keeps, Keeps->>=, Keeps->>, Keeps-done_with, Keeps-panic_with, Keeps-lift, Keeps-if,
  Keeps-catch, Keeps-open_db, Keeps-query_response, Keeps-query_one, Keeps-batch_real_associations,
}
use entix.Service.Query.{User, Service, reads_all}
use entix.Service.Read.{
  open_or_panic, query_role_ids, new_service, access_rows, can_read, query_entity, query_one_entity,
  query_by_id, batch_query_associations,
}

module _ (x : Context) where
  pub Keeps-open_or_panic : Keeps (open_or_panic x)
  unfolding open_or_panic
  Keeps-open_or_panic = Keeps-catch (Keeps-open_db x.driver) Keeps-panic_with

  Keeps-query_role_ids : (me : Option User) → Keeps (query_role_ids x me)
  unfolding query_role_ids
  Keeps-query_role_ids none = Keeps-done_with _
  Keeps-query_role_ids (some me) = Keeps->> Keeps-open_or_panic (
      Keeps->>= (Keeps-lift _) (λ role.
        Keeps->>= (Keeps-query_response x role _ _)
          (λ r. Keeps->>= (Keeps-lift _) (λ ids. Keeps-done_with _))))

  pub Keeps-new_service : (me : Option User) (app_id : ℕ) → Keeps (new_service x me app_id)
  unfolding new_service
  Keeps-new_service me app_id = Keeps->>= (Keeps-query_role_ids me) (λ ids. Keeps-done_with _)

  module _ (unmarshal : String → Outcome Fields) where
    pub Keeps-can_read : (s : Service) (e : Entity) → Keeps (can_read x unmarshal s e)
    unfolding can_read access_rows
    Keeps-can_read s e =
        Keeps->>=
          (Keeps-if (reads_all s) (Keeps-done_with _) (
            Keeps->> (Keeps-catch (Keeps-open_db x.driver) (λ _. Keeps-panic_with _)) (
              Keeps->>= (Keeps-lift _)
                (λ auth. Keeps->>= (Keeps-query_response x auth _ _) (λ r. Keeps-done_with _)))))
          (λ rows. Keeps-lift _)

    pub Keeps-query_entity :
        (s : Service) (e : Entity) (args : Fields) (names : List String)
        → Keeps (query_entity x unmarshal s e args names)
    unfolding query_entity
    Keeps-query_entity s e args names = Keeps->>= (Keeps-can_read s e) (λ access.
        Keeps-if (not access.can_read) (Keeps-panic_with _)
          (Keeps->> Keeps-open_or_panic (Keeps-query_response x e _ _)))

    pub Keeps-query_one_entity :
        (s : Service) (e : Entity) (args : Fields) → Keeps (query_one_entity x unmarshal s e args)
    unfolding query_one_entity
    Keeps-query_one_entity s e args = Keeps->>= (Keeps-can_read s e) (λ access.
        Keeps-if (not access.can_read) (Keeps-panic_with _)
          (Keeps->> Keeps-open_or_panic (Keeps-query_one x e _)))

    -- Whatever the database answers, QueryRoleIds, QueryEntity, QueryOneEntity, QueryById and
    -- BatchQueryAssociations store nothing and leave as many transactions open as there were, however
    -- they end; none of them ends the process.
    pub queries-Kept :
        (me : Option User) (s : Service) (e : Entity) (args : Fields) (names : List String) (id : ℕ)
        (a : Association) (ids : List ℕ) (state : State)
        → Kept state (query_role_ids x me state)
          × Kept state (query_entity x unmarshal s e args names state)
          × Kept state (query_one_entity x unmarshal s e args state)
          × Kept state (query_by_id x unmarshal s e id state)
          × Kept state (batch_query_associations x a ids args state)
    unfolding query_by_id batch_query_associations
    queries-Kept me s e args names id a ids state = (
      (Keeps-query_role_ids me).keeps state,
      (Keeps-query_entity s e args names).keeps state,
      (Keeps-query_one_entity s e args).keeps state,
      (Keeps->>= (Keeps-can_read s e) (λ access.
            Keeps-if (not access.can_read) (Keeps-panic_with _)
              (Keeps-query_one_entity s e _))).keeps
          state,
      (Keeps->> Keeps-open_or_panic (Keeps-batch_real_associations x a ids args)).keeps state,
    )
