-- ===== src/Graph/Build/Wiring/New.antt =====
-- model/graph/graph.go: the loops over the relations keep the pointers of the model in order.
use entix.Prelude.{
  ℕ, zero, suc, ◌≡◌, refl, ◌∙◌, String, ◌<>◌, Bool, List, [], ◌∷◌, map, some, ok, panic, Ensures,
  Ensures->>=, All, All-append, find_first, arith, Bool-cases, Option-cases, inl, inr, is_empty,
  ◌||◌,
}
use mathlib.Core.Path.{subst, subst⁻¹}
use entix.Domain
use entix.Graph.{EntityRef, Relation, Association, Entity, Interface}
use entix.Graph.Link.{new_association}
use entix.Graph.Build.{
  Model, ref, get_interface_by_uuid, get_entity_by_uuid, new_interface, end_entities,
  relate_targets, relate, new_relation, add_relations, make_relation, make_relations,
  add_association, is_two_way, make_associations, make_all_associations, start, finish, new,
  add_classes,
}
use entix.Graph.Build.Wiring.{domain_at, Points, Joins, IsWired, All-mono, Children}
use entix.Graph.Build.Wiring.Classes.{Joins-mono, add_classes-IsWired}

-- What holds of every element holds of the one that a search returns.
find_first_All {ℓ} :
    {A : Type ℓ} (P : A → Type 0) (test : A → Bool) (xs : List A) (x : A)
    → All P xs
    → find_first test xs ≡ some x
    → P x
unfolding find_first
find_first_All P test [] x a h = cc
find_first_All P test (y ∷ ys) x (p, a) h = elim (Bool-cases (test y)) [
  | inl e ↦ let same : y ≡ x = ground arith in subst P same p
  | inr e ↦ find_first_All P test ys x a (ground arith)
]

end_entities_wired :
    (message uuid : String) (m : Model)
    → IsWired m
    → Ensures (end_entities message uuid m) (All (Points m.entities))
unfolding end_entities get_entity_by_uuid get_interface_by_uuid
end_entities_wired message uuid m w = elim (Option-cases (get_entity_by_uuid uuid m.entities)) [
  | inr (e, h) ↦
      let one : end_entities message uuid m ≡ ok (ref e ∷ []) = rw (h, end_entities) in
      subst⁻¹ (λ o. Ensures o (All (Points m.entities))) one
        (find_first_All (λ (x : Entity). Points m.entities (ref x)) _ m.entities e w.places h, tt)
  | inl h ↦ elim (Option-cases (get_interface_by_uuid uuid m.interfaces)) [
    | inr (i, g) ↦
        let below : end_entities message uuid m ≡ ok i.children = rw (h, g, end_entities) in
        subst⁻¹ (λ o. Ensures o (All (Points m.entities))) below
          (find_first_All (λ (x : Interface). All (Points m.entities) x.children) _ m.interfaces i
            w.children g)
    | inl g ↦
        let stop : end_entities message uuid m ≡ panic (message <> uuid) =
          rw (h, g, end_entities) in
        subst⁻¹ (λ o. Ensures o (All (Points m.entities))) stop tt
  ]
]

relate_targets_wired :
    (es : List Entity) (r : Domain.Relation) (s : EntityRef) (ts : List EntityRef)
    → Points es s
    → All (Points es) ts
    → All (Joins es) (relate_targets r s ts)
unfolding relate_targets new_relation
relate_targets_wired es r s [] p a = tt
relate_targets_wired es r s (t ∷ ts) p (q, a) = ((p, q), relate_targets_wired es r s ts p a)

relate_wired :
    (es : List Entity) (r : Domain.Relation) (ss ts : List EntityRef)
    → All (Points es) ss
    → All (Points es) ts
    → All (Joins es) (relate r ss ts)
unfolding relate
relate_wired es r [] ts a b = tt
relate_wired es r (s ∷ ss) ts (p, a) b =
    All-append (Joins es) (relate_targets r s ts) (relate r ss ts)
      (relate_targets_wired es r s ts p b) (relate_wired es r ss ts a b)

add_relations-IsWired :
    (r : Domain.Relation) (m : Model) (ss ts : List EntityRef)
    → IsWired m
    → All (Points m.entities) ss
    → All (Points m.entities) ts
    → IsWired (add_relations r m ss ts)
unfolding add_relations
add_relations-IsWired r m ss ts w a b = elim (Bool-cases (is_empty ss || is_empty ts)) [
  | inl e ↦ rw e w
  | inr e ↦ rw e (record {
    places = w.places;
    children = w.children;
    relations =
        All-append (Joins m.entities) m.relations (relate r ss ts) w.relations
          (relate_wired m.entities r ss ts a b);
    associations = w.associations;
  })
]

make_relation-IsWired :
    (r : Domain.Relation) (m : Model) → IsWired m → Ensures (make_relation r m) IsWired
unfolding make_relation
make_relation-IsWired r m w =
    Ensures->>= (All (Points m.entities)) IsWired _ _ (end_entities_wired _ r.source m w) λ ss a.
      Ensures->>= (All (Points m.entities)) IsWired _ _ (end_entities_wired _ r.target m w)
        λ ts b. add_relations-IsWired r m ss ts w a b

make_relations-IsWired :
    (rs : List Domain.Relation) (m : Model) → IsWired m → Ensures (make_relations rs m) IsWired
unfolding make_relations
make_relations-IsWired [] m w = w
make_relations-IsWired (r ∷ rs) m w =
    Ensures->>= IsWired IsWired (make_relation r m) (make_relations rs)
      (make_relation-IsWired r m w) (make_relations-IsWired rs)

domain_at-add_association :
    (place : ℕ) (a : Association) (es : List Entity) (n : ℕ)
    → domain_at (add_association place a es) n ≡ domain_at es n
unfolding add_association
domain_at-add_association place a [] n = refl
domain_at-add_association zero a (e ∷ es) zero = refl
domain_at-add_association zero a (e ∷ es) (suc n) = refl
domain_at-add_association (suc place) a (e ∷ es) zero = refl
domain_at-add_association (suc place) a (e ∷ es) (suc n) = domain_at-add_association place a es n

-- What holds of the entities, seen from a list `base` that their pointers lead into.
abbrev Placed : List Entity → Entity → Type 0
Placed base e = Points base (ref e) × All (λ a. Joins base a.relation) e.associations

add_association-Placed :
    (base : List Entity) (place : ℕ) (a : Association) (es : List Entity)
    → Joins base a.relation
    → All (Placed base) es
    → All (Placed base) (add_association place a es)
unfolding add_association
add_association-Placed base place a [] j h = tt
add_association-Placed base zero a (e ∷ es) j ((p, q), h) =
    ((p, All-append (λ b. Joins base b.relation) e.associations (a ∷ []) q (j, tt)), h)
add_association-Placed base (suc place) a (e ∷ es) j (p, h) =
    (p, add_association-Placed base place a es j h)

module _ (base : List Entity) where
  abbrev Stable : List Entity → Type 0
  Stable es = ((n : ℕ) → domain_at es n ≡ domain_at base n) × All (Placed base) es

  make_associations-Stable :
      (r : Relation) (es : List Entity) → Joins base r → Stable es → Stable (make_associations r es)
  unfolding make_associations new_association
  make_associations-Stable r es j (same, h) =
      let a = new_association r r.source_entity.domain.uuid in
      let b = new_association r r.target_entity.domain.uuid in
      let source = r.source_entity.place in
      let target = r.target_entity.place in
      let once = add_association source a es in
      let kept = λ (n : ℕ). domain_at-add_association source a es n ∙ same n in
      let placed = add_association-Placed base source a es j h in
      elim (Bool-cases (is_two_way r)) [
        | inl e ↦ rw e (
          λ n. domain_at-add_association target b once n ∙ kept n,
          add_association-Placed base target b once j placed,
        )
        | inr e ↦ rw e (kept, placed)
      ]

  make_all_associations-Stable :
      (rs : List Relation) (es : List Entity)
      → All (Joins base) rs
      → Stable es
      → Stable (make_all_associations rs es)
  unfolding make_all_associations
  make_all_associations-Stable [] es j h = h
  make_all_associations-Stable (r ∷ rs) es (j, js) h =
      make_all_associations-Stable rs (make_associations r es) js
        (make_associations-Stable r es j h)

both :
    (base : List Entity) (es : List Entity)
    → All (λ e. Points base (ref e)) es
    → All (λ e. All (λ a. Joins base a.relation) e.associations) es
    → All (Placed base) es
both base [] p q = tt
both base (e ∷ es) (p, ps) (q, qs) = ((p, q), both base es ps qs)

finish-IsWired : (m : Model) → IsWired m → IsWired (finish m)
finish-IsWired m w =
    let es = make_all_associations m.relations m.entities in
    let (same, placed) =
      make_all_associations-Stable m.entities m.relations m.entities w.relations
        (λ n. refl, both m.entities m.entities w.places w.associations) in
    let lead = λ (r : EntityRef) (p : Points m.entities r). same r.place ∙ p in
    let join = Joins-mono m.entities es lead in
    record {
      places =
          All-mono (Placed m.entities) (λ e. Points es (ref e)) (λ e p. lead (ref e) p.0) es placed;
      children =
          All-mono (λ i. All (Points m.entities) i.children) _
            (λ i. All-mono (Points m.entities) (Points es) lead i.children) m.interfaces w.children;
      relations = All-mono (Joins m.entities) (Joins es) join m.relations w.relations;
      associations =
          All-mono (Placed m.entities) _
            (λ e p.
              All-mono (λ a. Joins m.entities a.relation) _ (λ a. join a.relation) e.associations
                p.1)
            es placed;
    }

no-Children :
    (es : List Entity) (cs : List Domain.Class) → Children (Points es) (map new_interface cs)
no-Children es [] = tt
no-Children es (c ∷ cs) = (tt, no-Children es cs)

start-IsWired : (d : Domain.Model) → IsWired (start d)
start-IsWired d = record {
  places = tt;
  children = no-Children [] _;
  relations = tt;
  associations = tt;
}

-- Whatever the domain model, in the graph model that `New` returns each entity stands at its own
-- place, and every pointer to an entity leads to one and shows its class: that of an interface to a
-- child, and those of a relation, of the model or behind an association, to its two ends.
pub new-IsWired : (fuel : ℕ) (d : Domain.Model) → Ensures (new fuel d) IsWired
unfolding new
new-IsWired fuel d =
    Ensures->>= IsWired IsWired (add_classes fuel d.classes d.classes (start d)) _
      (add_classes-IsWired fuel d.classes d.classes (start d) (start-IsWired d))
      λ m w.
        Ensures->>= IsWired IsWired (make_relations d.relations m) _
          (make_relations-IsWired d.relations m w) finish-IsWired
