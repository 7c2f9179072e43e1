-- ===== src/Domain/Parents/Acyclic.antt =====
-- model/domain: `AllParents` in the domain model that `New` returns.
use mathlib.Core.Path.{subst}
use entix.Prelude.{
  ℕ, suc, refl, ◌<◌, ◌≤◌, String, true, ◌≡◌, List, [], ◌∷◌, Option, none, some, is_some, Outcome,
  ok, Ensures, All, arith, ◌=?◌, Bool-cases, inl, inr,
}
use entix.Meta.Content
use entix.Domain.{Class, Model, get_class_by_uuid, all_parents, new}
use entix.Domain.Linked.{Found, ClassLinked, IsLinked, new-IsLinked}
use entix.Domain.Parents.{all_parents_total}

All-get_class_by_uuid :
    (P : Class → Type 0) (cs : List Class) (u : String) (c : Class)
    → All P cs
    → get_class_by_uuid cs u ≡ some c
    → P c
unfolding get_class_by_uuid
All-get_class_by_uuid P [] u c a h = cc
All-get_class_by_uuid P (d ∷ cs) u c (p, a) h = elim (Bool-cases (d.uuid =? u)) [
  | inl e ↦ let same : d ≡ c = ground (arith, e, h) in subst P same p
  | inr e ↦ All-get_class_by_uuid P cs u c a (ground (arith, e, h))
]

-- Inheritance has no cycle: each class ranks above its parents.
abbrev pub Ranked : List Class → (String → ℕ) → Type 0
Ranked cs rank =
    (u : String) (c : Class)
    → get_class_by_uuid cs u ≡ some c
    → All (λ p. rank p < rank u) c.parents

found_some : (o : Option Class) → is_some o ≡ true → (d : Class) × (o ≡ some d)
found_some none h = cc
found_some (some d) h = (d, refl)

below :
    (cs : List Class) (rank : String → ℕ) (n k : ℕ) (ps : List String)
    → n ≤ k
    → All (Found cs) ps
    → All (λ p. rank p < n) ps
    → All (λ p. ((d : Class) × (get_class_by_uuid cs p ≡ some d)) × (rank p < k)) ps
below cs rank n k [] h f a = tt
below cs rank n k (p ∷ ps) h (there, f) (lower, a) = (
  (found_some (get_class_by_uuid cs p) there, omega (arith, lower, h)),
  below cs rank n k ps h f a,
)

Ensures-ok {κ} :
    {V : Type κ} (P : V → Type 0) (o : Outcome V) (v : V) → Ensures o P → o ≡ ok v → P v
Ensures-ok P o v h e = subst (λ r. Ensures r P) e h

-- In a domain model that New returns, where inheritance has no cycle, each class ranking above its
-- parents, AllParents of a class of the model comes to a result with any fuel above its rank.
pub all_parents-new :
    (meta : Content.Model) (d : Model) (rank : String → ℕ) (u : String) (c : Class) (fuel : ℕ)
    → new meta ≡ ok d
    → Ranked d.classes rank
    → get_class_by_uuid d.classes u ≡ some c
    → rank u ≤ fuel
    → (r : List String) × (all_parents (suc fuel) d.classes c ≡ ok r)
all_parents-new meta d rank u c fuel made ranked found enough =
    let linked = Ensures-ok IsLinked (new meta) d (new-IsLinked meta) made in
    let pointed = λ (v : String) (k : Class) (h : get_class_by_uuid d.classes v ≡ some k).
      (All-get_class_by_uuid (ClassLinked (Found d.classes)) d.classes v k linked.inheritance
        h).0 in
    all_parents_total d.classes rank
      (λ v k h.
        below d.classes rank (rank v) (rank v) k.parents (omega arith) (pointed v k h)
          (ranked v k h))
      fuel c
      (below d.classes rank (rank u) fuel c.parents enough (pointed u c found) (ranked u c found))
