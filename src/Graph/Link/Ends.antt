-- ===== src/Graph/Link/Ends.antt =====
-- model/graph/association.go: the two associations of a relation face one another.
use entix.Prelude.{◌≡◌, ◌≢◌, refl, ◌=?◌, ◌&&◌, true, false, arith, eq_iff, eq_refl}
use entix.Meta.Kind
use entix.Graph.{Relation, Association}
use entix.Graph.Link.{
  new_association, is_source, name, owner, type_entity, is_array, is_combination, is_1_to_n,
  is_n_to_1,
}

-- The associations that `makeAssociations` makes at the ends of a relation.
abbrev pub at_source : Relation → Association
at_source r = new_association r r.source_entity.domain.uuid

abbrev pub at_target : Relation → Association
at_target r = new_association r r.target_entity.domain.uuid

pub is_source-at_source : (r : Relation) → is_source (at_source r) ≡ true
unfolding is_source new_association
is_source-at_source r = eq_refl _

is_source-at_target :
    (r : Relation)
    → r.source_entity.domain.uuid ≢ r.target_entity.domain.uuid
    → is_source (at_target r) ≡ false
unfolding is_source new_association
is_source-at_target r h =
    ground (arith, eq_iff r.source_entity.domain.uuid r.target_entity.domain.uuid)

-- Where the two ends have different `Uuid`s, each of the two associations is owned by its own end,
-- leads to the owner of the other, and carries the role that the relation gives to the other end, of
-- which it holds many exactly if the relation says so there. The one at the source is from one to many
-- exactly if the relation says one at the source and many at the target; the one at the target, if it
-- says many at the source and one at the target. Each is from one to many exactly if the other is from
-- many to one, and only the one at the source can be a combination.
pub ends_face :
    (r : Relation)
    → r.source_entity.domain.uuid ≢ r.target_entity.domain.uuid
    → (owner (at_source r) ≡ r.source_entity)
      × (owner (at_target r) ≡ r.target_entity)
      × (type_entity (at_source r) ≡ owner (at_target r))
      × (type_entity (at_target r) ≡ owner (at_source r))
      × (name (at_source r) ≡ r.role_of_target)
      × (name (at_target r) ≡ r.role_of_source)
      × (is_array (at_source r) ≡ (r.target_multiplicity =? Kind.zero_many))
      × (is_array (at_target r) ≡ (r.source_mutiplicity =? Kind.zero_many))
      × (is_1_to_n (at_source r)
          ≡ (r.source_mutiplicity =? Kind.zero_one && r.target_multiplicity =? Kind.zero_many))
      × (is_1_to_n (at_target r)
          ≡ (r.source_mutiplicity =? Kind.zero_many && r.target_multiplicity =? Kind.zero_one))
      × (is_1_to_n (at_source r) ≡ is_n_to_1 (at_target r))
      × (is_1_to_n (at_target r) ≡ is_n_to_1 (at_source r))
      × (is_combination (at_target r) ≡ false)
unfolding owner type_entity name is_array is_1_to_n is_n_to_1 is_combination new_association
ends_face r h =
    let s = is_source-at_source r in
    let t = is_source-at_target r h in
    (
      rw s refl,
      rw t refl,
      rw (s, t) refl,
      rw (s, t) refl,
      rw s refl,
      rw t refl,
      rw s refl,
      rw t refl,
      rw s refl,
      rw t refl,
      rw (s, t) refl,
      rw (s, t) refl,
      rw t refl,
    )
