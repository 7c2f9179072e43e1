-- ===== src/Orm/Query/Arguments.antt =====
-- orm/query.go: which arguments a query reads.
use entix.Prelude.{ℕ, ◌≡◌, refl, String, List, Value, null, Fields, end, get}
use entix.Consts
use entix.Meta.{AttributeMeta}
use entix.Graph.{Entity}
use entix.Orm.Query.{
  build_query_entity_sql, build_query_entity_records_sql, build_query_entity_count_sql, query,
}

-- The map has none of the four arguments that a query reads.
abbrev pub Unread : Fields → Type 0
Unread m =
    (get m Consts.arg_where ≡ null)
    × (get m Consts.arg_orderby ≡ null)
    × (get m Consts.arg_limit ≡ null)
    × (get m Consts.arg_offset ≡ null)

-- Whatever a map says under other keys than `where`, `orderBy`, `limit` and `offset`, the statements of
-- `Session.Query` are those of a query without arguments.
pub query-Unread :
    (verb_d : Value → String) (heap : List Entity) (e : Entity) (m : Fields)
    (fields : List AttributeMeta) (seed : ℕ)
    → Unread m
    → query verb_d heap e m fields seed ≡ query verb_d heap e end fields seed
unfolding query build_query_entity_records_sql build_query_entity_count_sql build_query_entity_sql
    get
query-Unread verb_d heap e m fields seed (w, o, l, f) = rw (w, o, l, f) refl
