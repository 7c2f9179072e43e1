-- ===== src/Graph/Build/Relations.antt =====
-- model/graph/graph.go: the relations that one relation of the domain comes to.
use entix.Prelude.{◌≡◌, refl, sym, ap, ◌∙◌, List, [], ◌∷◌, ◌++◌, map, ok, ◌>>=◌}
use mathlib.Core.List.{map-append, append-nil}
use entix.Domain
use entix.Graph.{EntityRef, Relation}
use entix.Graph.Build.{
  Model, relate_targets, relate, new_relation, add_relations, make_relation, end_entities,
}

-- The ends of a relation.
abbrev pub ends : Relation → EntityRef × EntityRef
ends r = (r.source_entity, r.target_entity)

-- All pairs of a source and a target.
abbrev pub pairs_of : EntityRef → List EntityRef → List (EntityRef × EntityRef)
pairs_of s [] = []
pairs_of s (t ∷ ts) = (s, t) ∷ pairs_of s ts

abbrev pub pairs : List EntityRef → List EntityRef → List (EntityRef × EntityRef)
pairs [] ts = []
pairs (s ∷ ss) ts = pairs_of s ts ++ pairs ss ts

ends-relate_targets :
    (r : Domain.Relation) (s : EntityRef) (ts : List EntityRef)
    → map ends (relate_targets r s ts) ≡ pairs_of s ts
unfolding relate_targets new_relation
ends-relate_targets r s [] = refl
ends-relate_targets r s (t ∷ ts) = cc (ends-relate_targets r s ts)

ends-relate :
    (r : Domain.Relation) (ss ts : List EntityRef) → map ends (relate r ss ts) ≡ pairs ss ts
unfolding relate
ends-relate r [] ts = refl
ends-relate r (s ∷ ss) ts =
    map-append ends (relate_targets r s ts) (relate r ss ts)
    ∙ cc (ends-relate_targets r s ts, ends-relate r ss ts)

pairs-nil : (ss : List EntityRef) → pairs ss [] ≡ []
pairs-nil [] = refl
pairs-nil (s ∷ ss) = pairs-nil ss

-- The relations of a model by their ends.
abbrev pub all_ends : Model → List (EntityRef × EntityRef)
all_ends m = map ends m.relations

all_ends-add_relations :
    (r : Domain.Relation) (m : Model) (ss ts : List EntityRef)
    → all_ends (add_relations r m ss ts) ≡ all_ends m ++ pairs ss ts
unfolding add_relations
all_ends-add_relations r m [] ts = sym (append-nil (all_ends m))
all_ends-add_relations r m (s ∷ ss) [] = rw (pairs-nil ss) (sym (append-nil (all_ends m)))
all_ends-add_relations r m (s ∷ ss) (t ∷ ts) =
    map-append ends m.relations (relate r (s ∷ ss) (t ∷ ts))
    ∙ ap (λ new. all_ends m ++ new) (ends-relate r (s ∷ ss) (t ∷ ts))

-- Where both ends of a relation of the domain are found, the model gets one relation for each pair
-- of an entity at its source and an entity at its target, in the order of the sources, behind the
-- relations that it had; none is added if one side has no entity.
pub make_relation-pairs :
    (r : Domain.Relation) (m : Model) (ss ts : List EntityRef)
    → end_entities "Can not find souce by uuid:" r.source m ≡ ok ss
    → end_entities "Can not find target by uuid:" r.target m ≡ ok ts
    → (m' : Model) × (make_relation r m ≡ ok m') × (all_ends m' ≡ all_ends m ++ pairs ss ts)
unfolding make_relation
make_relation-pairs r m ss ts hs ht =
    (add_relations r m ss ts, rw (hs, ◌>>=◌, ht, ◌>>=◌), all_ends-add_relations r m ss ts)
