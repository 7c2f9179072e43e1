-- ===== src/Graph/Build.antt =====
-- model/graph/graph.go: the graph model of a domain model.
pub mod SelfRelation
pub mod Relations
pub mod Wiring
use entix.Prelude.{
  ℕ, zero, suc, String, ◌<>◌, Bool, true, false, not, List, [], ◌∷◌, ◌++◌, map, Option, none, some,
  Outcome, ok, panic, ◌>>=◌, length, find_first, keep, is_empty, ◌||◌, ◌==◌, ◌=?◌, if◌then◌else◌,
}
use entix.Meta.Kind
use entix.Domain
use entix.Table.{Table}
use entix.Utils.Names.{first_upper}
use entix.Graph.{EntityRef, Relation, Association, Entity, Interface}
use entix.Graph.Link.{new_association}
use entix.Graph.Inherit.{is_emperty}
use entix.Graph.Tables.{new_entity_table, new_relation_table}

pub record Model : Type 0 where
  pub enums : List Domain.Enum
  pub interfaces : List Interface
  pub entities : List Entity
  pub third_parties : List Domain.Class
  pub value_objects : List Domain.Class
  pub relations : List Relation
  pub tables : List Table

-- The lookups, each of which returns the first that fits.
unfoldable pub get_interface_by_uuid : String → List Interface → Option Interface
unfolding find_first
get_interface_by_uuid uuid = find_first (λ i. i.domain.uuid =? uuid)

unfoldable pub get_entity_by_uuid : String → List Entity → Option Entity
unfolding find_first
get_entity_by_uuid uuid = find_first (λ e. e.domain.uuid =? uuid)

unfoldable pub get_entity_by_name : String → List Entity → Option Entity
unfolding find_first
get_entity_by_name name = find_first (λ e. e.domain.name =? name)

unfoldable pub get_entity_by_inner_id : ℕ → List Entity → Option Entity
unfolding find_first
get_entity_by_inner_id inner_id = find_first (λ e. e.domain.inner_id == inner_id)

unfoldable pub root_enities : List Entity → List Entity
unfolding keep
root_enities = keep (λ e. e.domain.root)

abbrev pub ref : Entity → EntityRef
ref e = record { place = e.place; domain = e.domain }

-- A write through a pointer to an interface, which was found by its `Uuid`.
unfoldable pub update_interface : String → (Interface → Interface) → List Interface → List Interface
update_interface uuid f [] = []
update_interface uuid f (i ∷ is) =
    if i.domain.uuid =? uuid then f i ∷ is else i ∷ update_interface uuid f is

no_interface : String → String
no_interface uuid = "Can not find interface by uuid:" <> uuid

-- The loop over the parents of an entity.
unfoldable pub implement :
    List String
    → Entity
    → List Interface
    → Outcome (record { entity : Entity; interfaces : List Interface })
unfolding get_interface_by_uuid update_interface no_interface
implement [] e is = ok (record { entity = e; interfaces = is })
implement (p ∷ ps) e is = elim (get_interface_by_uuid p is) [
  | none ↦ panic (no_interface p)
  | some parent ↦
      implement ps (record e { interfaces = e.interfaces ++ parent.domain ∷ [] })
        (update_interface p (λ i. record i { children = i.children ++ ref e ∷ [] }) is)
]

-- The loop over the parents of an interface.
unfoldable pub extend : List String → String → List Interface → Outcome (List Interface)
unfolding get_interface_by_uuid update_interface no_interface
extend [] uuid is = ok is
extend (p ∷ ps) uuid is = elim (get_interface_by_uuid p is) [
  | none ↦ panic (no_interface p)
  | some parent ↦
      extend ps uuid
        (update_interface uuid (λ i. record i { parents = i.parents ++ parent.domain ∷ [] }) is)
]

abbrev pub new_entity : Domain.Class → ℕ → Entity
new_entity c place = record { place = place; domain = c; associations = []; interfaces = [] }

abbrev pub new_interface : Domain.Class → Interface
new_interface c = record { domain = c; children = []; parents = [] }

unfoldable pub add_entity : List String → Domain.Class → Model → Outcome Model
unfolding implement
add_entity parents c m = do
  done ← implement parents (new_entity c (length m.entities)) m.interfaces
  ok (record m { entities = m.entities ++ done.entity ∷ []; interfaces = done.interfaces })

unfoldable pub add_interface : List String → Domain.Class → Model → Outcome Model
unfolding extend get_interface_by_uuid no_interface
add_interface parents c m = elim (get_interface_by_uuid c.uuid m.interfaces) [
  | none ↦ panic (no_interface c.uuid)
  | some own ↦ do
    interfaces ← extend parents c.uuid m.interfaces
    ok (record m { interfaces = interfaces })
]

-- The body of the loop over the classes. `fuel` bounds the recursion of `AllParents`.
unfoldable pub add_class : ℕ → List Domain.Class → Domain.Class → Model → Outcome Model
unfolding Domain.all_parents add_entity add_interface
add_class fuel all c m =
    if c.stereo_type =? Kind.entity
    then (Domain.all_parents fuel all c >>= λ parents. add_entity parents c m)
    else if c.stereo_type =? Kind.abstract
    then (Domain.all_parents fuel all c >>= λ parents. add_interface parents c m)
    else if c.stereo_type =? Kind.value_object
    then ok (record m { value_objects = m.value_objects ++ c ∷ [] })
    else if c.stereo_type =? Kind.third_party
    then ok (record m { third_parties = m.third_parties ++ c ∷ [] })
    else ok m

unfoldable pub add_classes : ℕ → List Domain.Class → List Domain.Class → Model → Outcome Model
add_classes fuel all [] m = ok m
add_classes fuel all (c ∷ cs) m = do next ← add_class fuel all c m; add_classes fuel all cs next

-- The entities at one end of a domain relation: one entity, or those below an interface.
unfoldable pub end_entities : String → String → Model → Outcome (List EntityRef)
unfolding get_entity_by_uuid get_interface_by_uuid
end_entities message uuid m = elim (get_entity_by_uuid uuid m.entities) [
  | some e ↦ ok (ref e ∷ [])
  | none ↦ elim (get_interface_by_uuid uuid m.interfaces) [
    | some i ↦ ok i.children
    | none ↦ panic (message <> uuid)
  ]
]

abbrev pub role : String → String → EntityRef → String
role own uuid e =
    if not (e.domain.uuid =? uuid) then own <> ("Of" <> first_upper e.domain.name) else own

-- relation.go: `NewRelation`
unfoldable pub new_relation : Domain.Relation → EntityRef → EntityRef → Relation
unfolding first_upper
new_relation r source target = record {
  app_id = r.app_id;
  uuid = r.uuid;
  inner_id = r.inner_id;
  relation_type = r.relation_type;
  source_entity = source;
  target_entity = target;
  role_of_target = role r.role_of_target r.target target;
  role_of_source = role r.role_of_source r.source source;
  description_on_source = r.description_on_source;
  description_on_target = r.description_on_target;
  source_mutiplicity = r.source_mutiplicity;
  target_multiplicity = r.target_multiplicity;
  enable_associaiton_class = r.enable_associaiton_class;
  association_class = r.association_class;
}

-- The two loops at the end of `makeRelation`.
unfoldable pub relate_targets : Domain.Relation → EntityRef → List EntityRef → List Relation
unfolding new_relation
relate_targets r source [] = []
relate_targets r source (t ∷ ts) = new_relation r source t ∷ relate_targets r source ts

unfoldable pub relate : Domain.Relation → List EntityRef → List EntityRef → List Relation
unfolding relate_targets
relate r [] targets = []
relate r (s ∷ ss) targets = relate_targets r s targets ++ relate r ss targets

unfoldable pub add_relations : Domain.Relation → Model → List EntityRef → List EntityRef → Model
unfolding relate
add_relations r m sources targets =
    if is_empty sources || is_empty targets
    then m
    else record m { relations = m.relations ++ relate r sources targets }

unfoldable pub make_relation : Domain.Relation → Model → Outcome Model
unfolding end_entities add_relations
make_relation r m = do
  sources ← end_entities "Can not find souce by uuid:" r.source m
  targets ← end_entities "Can not find target by uuid:" r.target m
  ok (add_relations r m sources targets)

unfoldable pub make_relations : List Domain.Relation → Model → Outcome Model
make_relations [] m = ok m
make_relations (r ∷ rs) m = do next ← make_relation r m; make_relations rs next

-- `AddAssociation` through a pointer to an entity.
unfoldable pub add_association : ℕ → Association → List Entity → List Entity
add_association place a [] = []
add_association zero a (e ∷ es) = record e { associations = e.associations ++ a ∷ [] } ∷ es
add_association (suc place) a (e ∷ es) = e ∷ add_association place a es

abbrev pub is_two_way : Relation → Bool
is_two_way r =
    r.relation_type =? Kind.two_way_aggregation
    || r.relation_type =? Kind.two_way_association
    || r.relation_type =? Kind.two_way_combination

unfoldable pub make_associations : Relation → List Entity → List Entity
unfolding new_association add_association
make_associations r es =
    let source = r.source_entity in
    let target = r.target_entity in
    let once = add_association source.place (new_association r source.domain.uuid) es in
    if is_two_way r
    then add_association target.place (new_association r target.domain.uuid) once
    else once

unfoldable pub make_all_associations : List Relation → List Entity → List Entity
unfolding make_associations
make_all_associations [] es = es
make_all_associations (r ∷ rs) es = make_all_associations rs (make_associations r es)

abbrev pub start : Domain.Model → Model
start d = record {
  enums = d.enums;
  interfaces = map new_interface (keep (λ c. c.stereo_type =? Kind.abstract) d.classes);
  entities = [];
  third_parties = [];
  value_objects = [];
  relations = [];
  tables = [];
}

-- The end of `New`, from the model with its relations.
abbrev pub finish : Model → Model
finish m =
    let entities = make_all_associations m.relations m.entities in
    record m {
      entities = entities;
      tables = map new_entity_table entities ++ map new_relation_table m.relations;
    }

unfoldable pub new : ℕ → Domain.Model → Outcome Model
unfolding add_classes make_relations make_all_associations new_entity_table new_relation_table keep
new fuel d = do
  classes ← add_classes fuel d.classes d.classes (start d)
  related ← make_relations d.relations classes
  ok (finish related)

-- `Validate`
unfoldable pub validate : List Entity → Outcome (Unit {0})
unfolding is_emperty
validate [] = ok tt
validate (e ∷ es) =
    if is_emperty e
    then panic ("Entity " <> (e.domain.name <> " should have one normal field at least"))
    else validate es
