-- ===== src/Graph/Build/Wiring/Classes.antt =====
-- model/graph/graph.go: the loops over the classes keep the pointers of the model in order.
use entix.Prelude.{
  ℕ, zero, suc, ◌≡◌, refl, ap, ◌∙◌, String, List, [], ◌∷◌, ◌++◌, some, Outcome, ok, panic, ◌>>=◌,
  Ensures, Ensures->>=, Ensures-if, err, All, All-append, length, Option-cases, inl, inr, ◌=?◌,
}
use mathlib.Core.Path.{subst⁻¹}
use entix.Meta.Kind
use entix.Domain
use entix.Graph.{EntityRef, Relation, Entity, Interface}
use entix.Graph.Build.{
  Model, ref, get_interface_by_uuid, implement, extend, new_entity, add_entity, add_interface,
  add_class, add_classes, no_interface,
}
use entix.Graph.Build.Wiring.{
  domain_at, Points, Joins, IsWired, domain_at-append, domain_at_last, All-mono, Children, Kept,
  implement_keeps, extend_keeps,
}

domain_at_same :
    (es : List Entity) (e f : Entity) (n : ℕ)
    → e.domain ≡ f.domain
    → domain_at (es ++ e ∷ []) n ≡ domain_at (es ++ f ∷ []) n
domain_at_same [] e f zero h = ap some h
domain_at_same [] e f (suc n) h = refl
domain_at_same (x ∷ es) e f zero h = refl
domain_at_same (x ∷ es) e f (suc n) h = domain_at_same es e f n h

pub Joins-mono :
    (es fs : List Entity)
    → ((r : EntityRef) → Points es r → Points fs r)
    → (r : Relation) → Joins es r
    → Joins fs r
Joins-mono es fs h r (p, q) = (h r.source_entity p, h r.target_entity q)

-- One more entity, at the end, with the interfaces that have it as a child.
appended :
    (m : Model) (e : Entity) (is : List Interface)
    → IsWired m
    → e.place ≡ length m.entities
    → e.associations ≡ []
    → Children (Points (m.entities ++ e ∷ [])) is
    → IsWired (record m { entities = m.entities ++ e ∷ []; interfaces = is })
appended m e is w at bare c =
    let es = m.entities ++ e ∷ [] in
    let more = λ (r : EntityRef) (p : Points m.entities r).
      domain_at-append m.entities (e ∷ []) r.place r.domain p in
    let join = Joins-mono m.entities es more in
    record {
      places =
          All-append (λ x. Points es (ref x)) m.entities (e ∷ [])
            (All-mono (λ x. Points m.entities (ref x)) _ (λ x. more (ref x)) m.entities w.places)
            (subst⁻¹ (λ n. domain_at es n ≡ some e.domain) at (domain_at_last m.entities e), tt);
      children = c;
      relations = All-mono (Joins m.entities) (Joins es) join m.relations w.relations;
      associations =
          All-append (λ x. All (λ a. Joins es a.relation) x.associations) m.entities (e ∷ [])
            (All-mono (λ x. All (λ a. Joins m.entities a.relation) x.associations) _
              (λ x.
                All-mono (λ a. Joins m.entities a.relation) _ (λ a. join a.relation) x.associations)
              m.entities w.associations)
            (subst⁻¹ (All (λ a. Joins es a.relation)) bare tt, tt);
    }

Children-mono :
    (F G : EntityRef → Type 0)
    → ((r : EntityRef) → F r → G r)
    → (is : List Interface) → Children F is
    → Children G is
Children-mono F G h is =
    All-mono (λ i. All F i.children) (λ i. All G i.children) (λ i. All-mono F G h i.children) is

add_entity-IsWired :
    (parents : List String) (c : Domain.Class) (m : Model)
    → IsWired m
    → Ensures (add_entity parents c m) IsWired
unfolding add_entity
add_entity-IsWired parents c m w =
    let e0 = new_entity c (length m.entities) in
    let more = λ (r : EntityRef) (p : Points m.entities r).
      domain_at-append m.entities (e0 ∷ []) r.place r.domain p in
    Ensures->>= (Kept (Points (m.entities ++ e0 ∷ [])) e0) IsWired
      (implement parents e0 m.interfaces) _
      (implement_keeps (Points (m.entities ++ e0 ∷ [])) parents e0 m.interfaces
        (domain_at_last m.entities e0)
        (Children-mono (Points m.entities) _ more m.interfaces w.children))
      λ d (place, domain, bare, children). appended m d.entity d.interfaces w place bare (
        Children-mono (Points (m.entities ++ e0 ∷ [])) _
          (λ r p. domain_at_same m.entities d.entity e0 r.place domain ∙ p) d.interfaces children)

add_interface-IsWired :
    (parents : List String) (c : Domain.Class) (m : Model)
    → IsWired m
    → Ensures (add_interface parents c m) IsWired
unfolding add_interface
add_interface-IsWired parents c m w =
    elim (Option-cases (get_interface_by_uuid c.uuid m.interfaces)) [
      | inl h ↦
          let stop : add_interface parents c m ≡ panic (no_interface c.uuid) =
            rw (h, add_interface) in
          subst⁻¹ (λ o. Ensures o IsWired) stop tt
      | inr (own, h) ↦
          let put_back : List Interface → Outcome Model = λ is. ok (record m { interfaces = is }) in
          let next : add_interface parents c m ≡ (extend parents c.uuid m.interfaces >>= put_back) =
            rw (h, add_interface) in
          subst⁻¹ (λ o. Ensures o IsWired) next
            (Ensures->>= (Children (Points m.entities)) IsWired (extend parents c.uuid m.interfaces)
              put_back (extend_keeps (Points m.entities) parents c.uuid m.interfaces w.children)
              (λ is children. record {
                places = w.places;
                children = children;
                relations = w.relations;
                associations = w.associations;
              }))
    ]

abbrev Anything : List String → Type 0
Anything ps = Unit

anything : (o : Outcome (List String)) → Ensures o Anything
anything (ok ps) = tt
anything (err e) = tt
anything (panic e) = tt

-- The other collections hold no pointers.
rewired :
    (m : Model) (ts vs : List Domain.Class)
    → IsWired m
    → IsWired (record m { third_parties = ts; value_objects = vs })
rewired m ts vs w = record {
  places = w.places;
  children = w.children;
  relations = w.relations;
  associations = w.associations;
}

add_class-IsWired :
    (fuel : ℕ) (all : List Domain.Class) (c : Domain.Class) (m : Model)
    → IsWired m
    → Ensures (add_class fuel all c m) IsWired
unfolding add_class
add_class-IsWired fuel all c m w =
    Ensures-if IsWired (c.stereo_type =? Kind.entity) _ _
      (Ensures->>= Anything IsWired (Domain.all_parents fuel all c) _
        (anything (Domain.all_parents fuel all c)) (λ ps _. add_entity-IsWired ps c m w))
      (Ensures-if IsWired (c.stereo_type =? Kind.abstract) _ _
        (Ensures->>= Anything IsWired (Domain.all_parents fuel all c) _
          (anything (Domain.all_parents fuel all c)) (λ ps _. add_interface-IsWired ps c m w))
        (Ensures-if IsWired (c.stereo_type =? Kind.value_object) _ _ (rewired m _ _ w)
          (Ensures-if IsWired (c.stereo_type =? Kind.third_party) _ _ (rewired m _ _ w) w)))

pub add_classes-IsWired :
    (fuel : ℕ) (all cs : List Domain.Class) (m : Model)
    → IsWired m
    → Ensures (add_classes fuel all cs m) IsWired
unfolding add_classes
add_classes-IsWired fuel all [] m w = w
add_classes-IsWired fuel all (c ∷ cs) m w =
    Ensures->>= IsWired IsWired (add_class fuel all c m) (add_classes fuel all cs)
      (add_class-IsWired fuel all c m w) (add_classes-IsWired fuel all cs)
