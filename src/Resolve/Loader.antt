-- ===== src/Resolve/Loader.antt =====
-- modules/app/resolve/loaders.go: the associated instances of many owners are read at once.
pub mod Groups
use entix.Prelude.{
  ℕ, ◌==◌, String, ◌<>◌, Bool, true, false, List, [], ◌∷◌, Option, none, some, Outcome, ok, panic,
  ◌>>=◌, Value, num, Fields, get, if◌then◌else◌,
}
use entix.Consts
use entix.Db.{M, lift}
use entix.Db
use entix.Graph.{Association}
use entix.Graph.Link
use entix.Orm.Session.{Context}
use entix.Service.Query.{User}
use entix.Service.Read.{new_service, batch_query_associations}

-- `obj[consts.ASSOCIATION_OWNER_ID] == id`
unfoldable pub is_owned_by : ℕ → Fields → Bool
unfolding get
is_owned_by id m = elim (get m Consts.association_owner_id) [ num n ↦ n == id | _ ↦ false ]

-- `findInstanceFromArray`
unfoldable pub find_instances : ℕ → List Fields → List Fields
unfolding is_owned_by
find_instances id [] = []
find_instances id (m ∷ ms) =
    let rest = find_instances id ms in if is_owned_by id m then m ∷ rest else rest

-- What a key is answered: all instances of the owner, or the only one.
pub data Loaded : Type 0 where
  many : List Fields → Loaded
  one : Option Fields → Loaded

-- More than one value is a panic.
unfoldable pub the_only : List Fields → Outcome Loaded
the_only [] = ok (one none)
the_only (m ∷ []) = ok (one (some m))
the_only (m ∷ n ∷ more) = panic "To many values"

unfoldable pub loaded : Association → List Fields → Outcome Loaded
unfolding the_only Link.is_array
loaded a ms = if Link.is_array a then ok (many ms) else the_only ms

unfoldable pub load_each : Association → List Fields → List ℕ → Outcome (List Loaded)
unfolding find_instances loaded
load_each a ms [] = ok []
load_each a ms (id ∷ ids) = do
  l ← loaded a (find_instances id ms)
  ls ← load_each a ms ids
  ok (l ∷ ls)

-- `QueryBatchFn`
unfoldable pub query_batch :
    Context → Option User → ℕ → Association → List ℕ → Fields → M (List Loaded)
unfolding new_service batch_query_associations load_each
query_batch x me app_id a ids args =
    Db.◌>>=◌ (new_service x me app_id)
      λ s. Db.◌>>=◌ (batch_query_associations x a ids args) λ rows. lift (load_each a rows ids)
