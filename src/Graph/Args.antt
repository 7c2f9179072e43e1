-- ===== src/Graph/Args.antt =====
-- model/graph/args.go: the tree of joined tables that a `where` argument needs. The program grows
-- the tree in place; here each step returns the grown tree and the counter of `CreateId`. The tree
-- is written out as two types, since it holds lists of itself. `heap` holds the model's entities, to
-- which the associations point.
pub mod Ids
pub mod Distinct
use entix.Prelude.{
  ℕ, suc, String, ◌<>◌, ◌||◌, List, Option, none, some, Outcome, ok, panic, ◌>>=◌, get_elem?, Value,
  obj, list, maps, Items, nil, item, Maps, no_map, add_map, Fields, end, field, show, ◌=?◌,
  if◌then◌else◌,
}
use entix.Consts
use entix.Graph.{Association, Entity}
use entix.Graph.Link
use entix.Graph.Inherit.{get_association_by_name}

mutual
  -- An identifier, the entity, and the joined associations; `ExpressionArgs`, which nothing reads, is
  -- left out.
  pub data ArgEntity : Type 0 where
    arg_entity : ℕ → Entity → ArgAssociations → ArgEntity

  pub data ArgAssociations : Type 0 where
    no_association : ArgAssociations
    arg_association : Association → ArgEntity → ArgAssociations → ArgAssociations

abbrev pub id_of : ArgEntity → ℕ
id_of (arg_entity i e as') = i

abbrev pub entity_of : ArgEntity → Entity
entity_of (arg_entity i e as') = e

abbrev pub associations_of : ArgEntity → ArgAssociations
associations_of (arg_entity i e as') = as'

-- `Alise`
unfoldable pub alise : ArgEntity → String
unfolding show
alise a = "t" <> show (id_of a)

-- The loop over `Associations` in `GetAssociation` and `GetWithMakeAssociation`.
unfoldable pub find_arg : String → ArgAssociations → Option ArgEntity
find_arg name no_association = none
find_arg name (arg_association a t more) =
    if Link.name a =? name then some t else find_arg name more

-- What later writes through the pointer that the loop found come to.
unfoldable pub set_arg : String → ArgEntity → ArgAssociations → ArgAssociations
set_arg name new no_association = no_association
set_arg name new (arg_association a t more) =
    if Link.name a =? name
    then arg_association a new more
    else arg_association a t (set_arg name new more)

-- `append` at the end.
unfoldable pub add_arg : Association → ArgEntity → ArgAssociations → ArgAssociations
add_arg b new no_association = arg_association b new no_association
add_arg b new (arg_association a t more) = arg_association a t (add_arg b new more)

abbrev pub Built : Type 0
Built = record { tree : ArgEntity; seed : ℕ }

abbrev pub not_found : Entity → String → String
not_found e name = "Can not find entity association:" <> (e.domain.name <> ("." <> name))

module _ (heap : List Entity) where
  -- `typeFromAssociation`, which takes the next identifier of the session.
  unfoldable pub type_from_association : Association → ℕ → Outcome Built
  type_from_association a seed = elim (get_elem? heap (Link.type_entity a).place) [
    | none ↦ panic "nil pointer dereference"
    | some e ↦ ok (record { tree = arg_entity (suc seed) e no_association; seed = suc seed })
  ]

  -- The branch of `GetWithMakeAssociation` that makes the association.
  unfoldable pub make_association : String → ArgEntity → ℕ → Outcome Built
  unfolding type_from_association
  make_association name (arg_entity i e joined) seed = elim (get_association_by_name e name) [
    | none ↦ panic (not_found e name)
    | some a ↦ do
      made ← type_from_association a seed
      ok (record { tree = arg_entity i e (add_arg a made.tree joined); seed = made.seed })
  ]

  unfoldable pub get_with_make_association : String → ArgEntity → ℕ → Outcome Built
  unfolding make_association
  get_with_make_association name t seed = elim (find_arg name (associations_of t)) [
    | some found ↦ ok (record { tree = t; seed = seed })
    | none ↦ make_association name t seed
  ]

  -- The joined entity goes back to its place.
  abbrev pub replace_arg : String → ArgEntity → Built → Built
  replace_arg name (arg_entity i e joined) sub = record {
    tree = arg_entity i e (set_arg name sub.tree joined);
    seed = sub.seed;
  }

  -- Goes on with the entity that is joined under a name, and puts it back.
  unfoldable pub within :
      String → ArgEntity → Option ArgEntity → (ArgEntity → Outcome Built) → Outcome Built
  within name t none visit = panic (not_found (entity_of t) name)
  within name t (some sub) visit = do done ← visit sub; ok (replace_arg name t done)

  -- The default branch of `buildWhereEntity`; `visit` is its recursive call.
  unfoldable pub visit_association :
      String → (ArgEntity → ℕ → Outcome Built) → ArgEntity → ℕ → Outcome Built
  unfolding get_with_make_association within
  visit_association key visit t seed = elim (get_association_by_name (entity_of t) key) [
    | none ↦ ok (record { tree = t; seed = seed })
    | some a ↦ do
      joined ← get_with_make_association key t seed
      within key joined.tree (find_arg key (associations_of joined.tree))
          (λ sub. visit sub joined.seed)
  ]

  unfoldable mutual
    pub build_where_entity : Fields → ArgEntity → ℕ → Outcome Built
    build_where_entity end t seed = ok (record { tree = t; seed = seed })
    build_where_entity (field key value rest) t seed =
        (if key =? Consts.arg_not
          then build_sub value t seed
          else if key =? Consts.arg_and || key =? Consts.arg_or
          then build_all value t seed
          else visit_association key (build_sub value) t seed)
        >>= λ done. build_where_entity rest done.tree done.seed

    -- `if subWhere, ok := value.(QueryArg); ok`
    build_sub : Value → ArgEntity → ℕ → Outcome Built
    build_sub (obj m) t seed = build_where_entity m t seed
    build_sub _ t seed = ok (record { tree = t; seed = seed })

    -- The branch of `_and` and `_or`.
    build_all : Value → ArgEntity → ℕ → Outcome Built
    build_all (maps ms) t seed = build_maps ms t seed
    build_all (list vs) t seed = build_items vs t seed
    build_all _ t seed = panic "interface conversion"

    build_maps : Maps → ArgEntity → ℕ → Outcome Built
    build_maps no_map t seed = ok (record { tree = t; seed = seed })
    build_maps (add_map m ms) t seed =
        build_where_entity m t seed >>= λ done. build_maps ms done.tree done.seed

    build_items : Items → ArgEntity → ℕ → Outcome Built
    build_items nil t seed = ok (record { tree = t; seed = seed })
    build_items (item v vs) t seed =
        build_element v t seed >>= λ done. build_items vs done.tree done.seed

    -- `args2[i].(QueryArg)`
    build_element : Value → ArgEntity → ℕ → Outcome Built
    build_element (obj m) t seed = build_where_entity m t seed
    build_element _ t seed = panic "interface conversion"

  unfoldable pub build_arg_entity : Entity → Value → ℕ → Outcome Built
  unfolding build_sub
  build_arg_entity e where_value seed =
      build_sub where_value (arg_entity (suc seed) e no_association) (suc seed)
