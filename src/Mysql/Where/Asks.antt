-- ===== src/Mysql/Where/Asks.antt =====
-- db/dialect/mysql/query.go: the conditions that the builder has a use for.
use entix.Prelude.{
  ◌≡◌, String, List, Option, none, some, Outcome, ok, Value, list, maps, obj, Items, nil, item,
  Maps, no_map, add_map, Fields, end, field, to_list, to_texts, to_map,
}
use entix.Graph.{Association}
use entix.Graph.Inherit.{get_association_by_name}
use entix.Graph.Args.{ArgEntity, entity_of, associations_of, find_arg}
use entix.Mysql.Where.{
  Operator, compares, is_in, not_in, tests_null, unknown, operator_of, Clause, conjunction,
  negation, disjunction, named, clause_of,
}
use entix.Mysql.Where.Marks.{marks}

-- The operator takes the value, and its text has a `?`.
abbrev pub AsksOperator : Operator → Value → Type 0
AsksOperator (compares suffix) v = marks suffix ≡ 1
AsksOperator is_in v = (vs : List Value) × (to_list v ≡ ok vs)
AsksOperator not_in v = (ss : List String) × (to_texts v ≡ ok ss)
AsksOperator tests_null v = Unit
AsksOperator unknown v = ⊥

-- At most one operator is asked of a field.
abbrev pub AsksField : Outcome Fields → Type 0
AsksField (ok end) = Unit
AsksField (ok (field k v end)) = AsksOperator (operator_of k) v
AsksField _ = ⊥

-- The association stands in the tree.
abbrev pub AsksJoined : Option ArgEntity → (ArgEntity → Type 0) → Type 0
AsksJoined none visit = ⊥
AsksJoined (some sub) visit = visit sub

abbrev pub AsksNamed :
    ArgEntity → String → Value → Option Association → (ArgEntity → Type 0) → Type 0
AsksNamed t k v none visit = (marks k ≡ 0) × AsksField (to_map v)
AsksNamed t k v (some a) visit = AsksJoined (find_arg k (associations_of t)) visit

abbrev pub AsksClause : ArgEntity → String → Value → Clause → Type 0 → (ArgEntity → Type 0) → Type 0
AsksClause t k v conjunction each visit = each
AsksClause t k v negation each visit = Unit
AsksClause t k v disjunction each visit = each
AsksClause t k v named each visit = AsksNamed t k v (get_association_by_name (entity_of t) k) visit

-- The map is a condition on the tree: each name is an association of the tree with a condition on
-- its entity, or else the name of a field without `?`, with one operator at most.
unfoldable mutual
  pub Asks : ArgEntity → Fields → Type 0
  Asks t end = Unit
  Asks t (field k v m) =
      AsksClause t k v (clause_of k) (AsksEach t v) (λ sub. AsksSub sub v) × Asks t m

  pub AsksSub : ArgEntity → Value → Type 0
  AsksSub t (obj m) = Asks t m
  AsksSub t _ = ⊥

  pub AsksEach : ArgEntity → Value → Type 0
  AsksEach t (list vs) = AsksItems t vs
  AsksEach t (maps ms) = AsksMaps t ms
  AsksEach t _ = ⊥

  pub AsksItems : ArgEntity → Items → Type 0
  AsksItems t nil = Unit
  AsksItems t (item v vs) = AsksSub t v × AsksItems t vs

  pub AsksMaps : ArgEntity → Maps → Type 0
  AsksMaps t no_map = Unit
  AsksMaps t (add_map m ms) = Asks t m × AsksMaps t ms
