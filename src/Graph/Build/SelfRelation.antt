-- ===== src/Graph/Build/SelfRelation.antt =====
-- model/graph/graph.go: the associations of a relation that leads from an entity to itself.
use mathlib.Core.List.{append_assoc}
use entix.Prelude.{
  ℕ, zero, suc, ◌≡◌, refl, sym, ap, ◌∙◌, List, [], ◌∷◌, ◌++◌, All, some, get_elem?, Bool-cases, inl,
  inr, if◌then◌else◌,
}
use entix.Graph.{Entity, Relation, Association}
use entix.Graph.Link.{name, type_entity, new_association}
use entix.Graph.Link.Ends.{at_source, at_target, is_source-at_source}
use entix.Graph.Build.{add_association, is_two_way, make_associations}

-- The entity with more associations behind its own.
abbrev pub with_more : Entity → List Association → Entity
with_more e more = record e { associations = e.associations ++ more }

get_elem-add_association :
    (place : ℕ) (a : Association) (es : List Entity) (e : Entity)
    → get_elem? es place ≡ some e
    → get_elem? (add_association place a es) place ≡ some (with_more e (a ∷ []))
unfolding add_association
get_elem-add_association place a [] e h = cc
get_elem-add_association zero a (x ∷ es) e h = let same : x ≡ e = cc in rw same refl
get_elem-add_association (suc place) a (x ∷ es) e h = get_elem-add_association place a es e h

-- What the entity gets: associations that bear the role of the target and lead to the target.
abbrev pub Bears : Relation → Association → Type 0
Bears r a = (name a ≡ r.role_of_target) × (type_entity a ≡ r.target_entity)

Bears-at_source : (r : Relation) → Bears r (at_source r)
unfolding name type_entity new_association
Bears-at_source r = let s = is_source-at_source r in (rw s refl, rw s refl)

get_elem-twice :
    (place : ℕ) (a : Association) (es : List Entity) (e : Entity)
    → get_elem? es place ≡ some e
    → get_elem? (add_association place a (add_association place a es)) place
      ≡ some (with_more e (a ∷ a ∷ []))
get_elem-twice place a es e h =
    get_elem-add_association place a (add_association place a es) (with_more e (a ∷ []))
      (get_elem-add_association place a es e h)
    ∙ ap (λ more. some (record e { associations = more }))
        (append_assoc e.associations (a ∷ []) (a ∷ []))

-- Where a relation leads from an entity to itself, the entity gets behind its associations the one at
-- the source, twice if the relation goes both ways and once otherwise; each that it gets bears the role
-- of the target, also the one that was made for the target, and leads to the target.
pub make_associations_self :
    (r : Relation) (es : List Entity) (e : Entity)
    → r.source_entity ≡ r.target_entity
    → get_elem? es r.source_entity.place ≡ some e
    → (more : List Association) × (get_elem? (make_associations r es) r.source_entity.place
        ≡ some (with_more e more))
      × (more ≡ (if is_two_way r then at_source r ∷ at_source r ∷ [] else at_source r ∷ []))
      × All (Bears r) more
unfolding make_associations
make_associations_self r es e same h =
    let target : add_association r.target_entity.place (at_target r)
        ≡ add_association r.source_entity.place (at_source r) =
      ap (λ t. add_association t.place (new_association r t.domain.uuid)) (sym same) in
    let b = Bears-at_source r in
    elim (Bool-cases (is_two_way r)) [
      | inl two ↦ (
        at_source r ∷ at_source r ∷ [],
        rw (two, target) (get_elem-twice r.source_entity.place (at_source r) es e h),
        rw two refl,
        (b, (b, tt)),
      )
      | inr one ↦ (
        at_source r ∷ [],
        rw one (get_elem-add_association r.source_entity.place (at_source r) es e h),
        rw one refl,
        (b, tt),
      )
    ]
