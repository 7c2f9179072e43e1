-- ===== src/Tests/Reads.antt =====
-- The theorems on reading and on the resolvers, at the samples.
use entix.Prelude.{◌≡◌, true, [], ◌∷◌, List, ok, Ensures, Fields, end, field, obj, num, str}
use entix.Graph.{Association}
use entix.Graph.Link
use entix.Orm.Read.Keeps.{Kept}
use entix.Resolve.Loader.{Loaded, load_each}
use entix.Resolve.Loader.Groups.{AnswersEach, load_each-Answers}
use entix.Resolve.Mutation.{set_resolve}
use entix.Resolve.Mutation.Idle.{Given, Idle, set_resolve-Idle}
use entix.Service.Read.{
  query_role_ids, query_entity, query_one_entity, query_by_id, batch_query_associations,
}
use entix.Service.Read.Keeps.{queries-Kept}
use entix.Tests.Changes.{context, start}
use entix.Tests.Graphs.{roles}
use entix.Tests.Queries.{ann, users, unmarshal}

abbrev roles_of_user : Association
roles_of_user = record { relation = roles; owner_class_uuid = "u" }

abbrev owned : List Fields
owned =
    field "id" (num 4) (field "owner__rx__id" (num 9) end)
    ∷ field "id" (num 5) (field "owner__rx__id" (num 8) end)
    ∷ []

abbrev renaming : Fields
renaming = field "set" (obj (field "name" (str "Bob") end)) end

set_resolve-Idle_example :
    ((set_resolve context unmarshal ann.me 7 2 users renaming start).1.stored ≡ [])
    × Given Idle (set_resolve context unmarshal ann.me 7 2 users renaming start).0
set_resolve-Idle_example = set_resolve-Idle context unmarshal ann.me 7 2 users renaming start

queries-Kept_example :
    Kept start (query_role_ids context ann.me start)
    × Kept start (query_entity context unmarshal ann users renaming ("id" ∷ []) start)
    × Kept start (query_one_entity context unmarshal ann users renaming start)
    × Kept start (query_by_id context unmarshal ann users 9 start)
    × Kept start (batch_query_associations context roles_of_user (9 ∷ []) renaming start)
queries-Kept_example =
    queries-Kept context unmarshal ann.me ann users renaming ("id" ∷ []) 9 roles_of_user (9 ∷ [])
      start

load_each-Answers_example :
    Ensures
      (load_each roles_of_user owned (9 ∷ 8 ∷ []))
      (AnswersEach roles_of_user owned (9 ∷ 8 ∷ []))
    × (Link.is_array roles_of_user ≡ true
        → (ls : List Loaded) × (load_each roles_of_user owned (9 ∷ 8 ∷ []) ≡ ok ls))
load_each-Answers_example = load_each-Answers roles_of_user owned (9 ∷ 8 ∷ [])
