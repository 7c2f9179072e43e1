-- ===== src/Graph/Build/Wiring.antt =====
-- model/graph/graph.go: the pointers of a graph model, and what keeps them.
pub mod Classes
pub mod New
use entix.Prelude.{
  ℕ, zero, suc, ◌≡◌, refl, sym, ap, ◌∙◌, String, Bool, true, false, List, [], ◌∷◌, ◌++◌, map,
  Option, none, some, Outcome, ok, panic, ◌>>=◌, Ensures, Ensures->>=, All, All-append, find_first,
  length, arith, Bool-cases, Option-cases, inl, inr, ◌=?◌, if◌then◌else◌,
}
use mathlib.Core.Path.{subst, subst⁻¹}
use entix.Domain
use entix.Graph.{EntityRef, Relation, Association, Entity, Interface}
use entix.Graph.Build.{
  Model, ref, get_interface_by_uuid, update_interface, implement, extend, no_interface,
}

-- The class of the entity at a place.
abbrev pub domain_at : List Entity → ℕ → Option Domain.Class
domain_at [] n = none
domain_at (e ∷ es) zero = some e.domain
domain_at (e ∷ es) (suc n) = domain_at es n

-- The pointer leads to an entity, and shows that entity's class.
abbrev pub Points : List Entity → EntityRef → Type 0
Points es r = domain_at es r.place ≡ some r.domain

abbrev pub Joins : List Entity → Relation → Type 0
Joins es r = Points es r.source_entity × Points es r.target_entity

-- What the pointers of a model lead to; an entity is known by its own place.
pub record IsWired (m : Model) : Type 0 where
  pub places : All (λ e. Points m.entities (ref e)) m.entities
  pub children : All (λ i. All (Points m.entities) i.children) m.interfaces
  pub relations : All (Joins m.entities) m.relations
  pub associations : All (λ e. All (λ a. Joins m.entities a.relation) e.associations) m.entities

pub domain_at-append :
    (es fs : List Entity) (n : ℕ) (d : Domain.Class)
    → domain_at es n ≡ some d
    → domain_at (es ++ fs) n ≡ some d
domain_at-append [] fs n d h = cc
domain_at-append (e ∷ es) fs zero d h = h
domain_at-append (e ∷ es) fs (suc n) d h = domain_at-append es fs n d h

pub domain_at_last :
    (es : List Entity) (e : Entity) → domain_at (es ++ e ∷ []) (length es) ≡ some e.domain
domain_at_last [] e = refl
domain_at_last (x ∷ es) e = domain_at_last es e

pub All-mono {ℓ} :
    {A : Type ℓ} (F G : A → Type 0) → ((a : A) → F a → G a) → (xs : List A) → All F xs → All G xs
All-mono F G h [] a = tt
All-mono F G h (x ∷ xs) (p, a) = (h x p, All-mono F G h xs a)

module _ (Q : EntityRef → Type 0) where
  abbrev pub Children : List Interface → Type 0
  Children = All (λ i. All Q i.children)

  Children-update_interface :
      (uuid : String) (f : Interface → Interface) (is : List Interface)
      → ((i : Interface) → All Q i.children → All Q (f i).children)
      → Children is
      → Children (update_interface uuid f is)
  unfolding update_interface
  Children-update_interface uuid f [] keep a = tt
  Children-update_interface uuid f (i ∷ is) keep (p, a) =
      elim (Bool-cases (i.domain.uuid =? uuid)) [
        | inl e ↦ rw e (keep i p, a)
        | inr e ↦ rw e (p, Children-update_interface uuid f is keep a)
      ]

  -- The entity keeps its place, class and associations, and the interfaces gain it as a child.
  abbrev pub Kept : Entity → record { entity : Entity; interfaces : List Interface } → Type 0
  Kept e d =
      (d.entity.place ≡ e.place)
      × (d.entity.domain ≡ e.domain)
      × (d.entity.associations ≡ e.associations)
      × Children d.interfaces

  pub implement_keeps :
      (ps : List String) (e : Entity) (is : List Interface)
      → Q (ref e)
      → Children is
      → Ensures (implement ps e is) (Kept e)
  unfolding implement
  implement_keeps [] e is q a = (refl, refl, refl, a)
  implement_keeps (p ∷ ps) e is q a = elim (Option-cases (get_interface_by_uuid p is)) [
    | inl h ↦
        let stop : implement (p ∷ ps) e is ≡ panic (no_interface p) = rw (h, implement) in
        subst⁻¹ (λ o. Ensures o (Kept e)) stop tt
    | inr (parent, h) ↦
        let e' = record e { interfaces = e.interfaces ++ parent.domain ∷ [] } in
        let is' = update_interface p (λ i. record i { children = i.children ++ ref e ∷ [] }) is in
        let next : implement (p ∷ ps) e is ≡ implement ps e' is' = rw (h, implement) in
        subst⁻¹ (λ o. Ensures o (Kept e)) next
          (implement_keeps ps e' is' q (
            Children-update_interface p _ is (λ i c. All-append Q i.children (ref e ∷ []) c (q, tt))
              a))
  ]

  pub extend_keeps :
      (ps : List String) (uuid : String) (is : List Interface)
      → Children is
      → Ensures (extend ps uuid is) Children
  unfolding extend
  extend_keeps [] uuid is a = a
  extend_keeps (p ∷ ps) uuid is a = elim (Option-cases (get_interface_by_uuid p is)) [
    | inl h ↦
        let stop : extend (p ∷ ps) uuid is ≡ panic (no_interface p) = rw (h, extend) in
        subst⁻¹ (λ o. Ensures o Children) stop tt
    | inr (parent, h) ↦
        let is' =
          update_interface uuid (λ i. record i { parents = i.parents ++ parent.domain ∷ [] }) is in
        let next : extend (p ∷ ps) uuid is ≡ extend ps uuid is' = rw (h, extend) in
        subst⁻¹ (λ o. Ensures o Children) next
          (extend_keeps ps uuid is' (Children-update_interface uuid _ is (λ i c. c) a))
  ]
