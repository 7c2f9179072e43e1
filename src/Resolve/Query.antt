-- ===== src/Resolve/Query.antt =====
-- modules/app/resolve/query.go, graphql.go.
use entix.Prelude.{
  ℕ, String, List, [], ◌∷◌, Option, Outcome, Value, null, Fields, get, ◌=?◌, if◌then◌else◌,
}
use entix.Consts
use entix.Meta.{AttributeMeta}
use entix.Meta.TypeName
use entix.Db.{M, ◌>>=◌}
use entix.Graph.{Entity}
use entix.Orm.Session.{Context}
use entix.Orm.Read.{Response}
use entix.Service.Query.{User}
use entix.Service.Read.{new_service, query_entity, query_one_entity}

-- What is selected of a field: fields with what is selected of them, and fragments.
mutual
  pub data Selection : Type 0 where
    selected : String → Selections → Selection
    fragment : Selection

  pub data Selections : Type 0 where
    nothing : Selections
    select : Selection → Selections → Selections

unfoldable pub selected_names : Selections → List String
selected_names nothing = []
selected_names (select fragment more) = selected_names more
selected_names (select (selected name inner) more) = name ∷ selected_names more

-- `parseListFields`, of what is selected of the list; only the first selection counts.
unfoldable pub parse_list_fields : Selections → List String
unfolding selected_names
parse_list_fields nothing = []
parse_list_fields (select fragment more) = []
parse_list_fields (select (selected name inner) more) =
    let names = selected_names inner in if name =? Consts.nodes then names else []

module _ (x : Context) (unmarshal : String → Outcome Fields) (me : Option User) (app_id : ℕ) where
  unfoldable pub query_one_resolve : Entity → Fields → M (Option Fields)
  unfolding new_service query_one_entity
  query_one_resolve e args = do s ← new_service x me app_id; query_one_entity x unmarshal s e args

  unfoldable pub query_resolve : Entity → Fields → Selections → M Response
  unfolding new_service query_entity parse_list_fields
  query_resolve e args selections = do
    s ← new_service x me app_id
    query_entity x unmarshal s e args (parse_list_fields selections)

-- `AttributeResolveFn`
unfoldable pub attribute_resolve : AttributeMeta → Fields → Value
unfolding get
attribute_resolve a source = if a.type =? TypeName.password then null else get source a.name
