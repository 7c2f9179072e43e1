-- ===== src/Graph/Link.antt =====
-- model/graph/association.go: a relation seen from one of its ends.
pub mod Ends
use entix.Prelude.{String, ◌<>◌, Bool, ◌&&◌, ◌||◌, not, ◌=?◌, if◌then◌else◌}
use entix.Meta.Kind
use entix.Graph.{EntityRef, Relation, Association}

unfoldable pub new_association : Relation → String → Association
new_association r owner_uuid = record { relation = r; owner_class_uuid = owner_uuid }

unfoldable pub is_source : Association → Bool
is_source a = a.relation.source_entity.domain.uuid =? a.owner_class_uuid

unfoldable pub name : Association → String
unfolding is_source
name a = if is_source a then a.relation.role_of_target else a.relation.role_of_source

unfoldable pub owner : Association → EntityRef
unfolding is_source
owner a = if is_source a then a.relation.source_entity else a.relation.target_entity

unfoldable pub type_entity : Association → EntityRef
unfolding is_source
type_entity a = if not (is_source a) then a.relation.source_entity else a.relation.target_entity

unfoldable pub description : Association → String
unfolding is_source
description a =
    if is_source a then a.relation.description_on_target else a.relation.description_on_source

unfoldable pub is_array : Association → Bool
unfolding is_source
is_array a =
    if is_source a
    then a.relation.target_multiplicity =? Kind.zero_many
    else a.relation.source_mutiplicity =? Kind.zero_many

unfoldable pub is_1_to_1 : Association → Bool
is_1_to_1 a =
    a.relation.source_mutiplicity =? Kind.zero_one
    && a.relation.target_multiplicity =? Kind.zero_one

unfoldable pub is_1_to_n : Association → Bool
unfolding is_source
is_1_to_n a =
    if is_source a
    then a.relation.source_mutiplicity =? Kind.zero_one
      && a.relation.target_multiplicity =? Kind.zero_many
    else a.relation.source_mutiplicity =? Kind.zero_many
      && a.relation.target_multiplicity =? Kind.zero_one

unfoldable pub is_n_to_1 : Association → Bool
unfolding is_source
is_n_to_1 a =
    if not (is_source a)
    then a.relation.source_mutiplicity =? Kind.zero_one
      && a.relation.target_multiplicity =? Kind.zero_many
    else a.relation.source_mutiplicity =? Kind.zero_many
      && a.relation.target_multiplicity =? Kind.zero_one

unfoldable pub is_n_to_n : Association → Bool
is_n_to_n a =
    a.relation.source_mutiplicity =? Kind.zero_many
    && a.relation.target_multiplicity =? Kind.zero_many

unfoldable pub is_one_way : Association → Bool
is_one_way a = not (a.relation.relation_type =? Kind.one_way_association)

unfoldable pub is_combination : Association → Bool
unfolding is_source
is_combination a =
    is_source a
    && (a.relation.relation_type =? Kind.two_way_combination
        || a.relation.relation_type =? Kind.one_way_combination)

unfoldable pub path : Association → String
unfolding owner name
path a = (owner a).domain.name <> ("." <> name a)
