-- ===== src/Domain/Parents.antt =====
-- model/domain/class.go: `AllParents` over the classes that `New` links.
pub mod Acyclic
use entix.Prelude.{
  ℕ, zero, suc, ◌<◌, String, ◌≡◌, ◌↔◌, refl, sym, inl, inr, List, [], ◌∷◌, ◌++◌, some, ok, All,
  IsIn, IsIn-append, IsIn-append_left, IsIn-append_right, arith,
}
use mathlib.Core.Path.{subst}
use entix.Domain.{Class, get_class_by_uuid, all_parents_of, all_parents}

-- What stands above the classes of a list by inheritance: they, their parents, and so on.
pub data Above (cs : List Class) : List String → String → Type 0 where
  here : {p q : String} {ps : List String} → p ≡ q → Above cs (p ∷ ps) q
  there : {p q : String} {ps : List String} → Above cs ps q → Above cs (p ∷ ps) q
  climb :
      {p q : String} {ps : List String} {c : Class}
      → get_class_by_uuid cs p ≡ some c
      → Above cs c.parents q
      → Above cs (p ∷ ps) q

module _ (cs : List Class) (rank : String → ℕ) where
  -- Inheritance has no cycle: each parent is there, and ranks below its child.
  abbrev pub Descends : Type 0
  Descends =
      (u : String) (c : Class)
      → get_class_by_uuid cs u ≡ some c
      → All (λ p. ((d : Class) × (get_class_by_uuid cs p ≡ some d)) × (rank p < rank u)) c.parents

  lower :
      (k n : ℕ) (ps : List String)
      → n < suc k
      → All (λ p. ((d : Class) × (get_class_by_uuid cs p ≡ some d)) × (rank p < n)) ps
      → All (λ p. ((d : Class) × (get_class_by_uuid cs p ≡ some d)) × (rank p < k)) ps
  lower k n [] h a = tt
  lower k n (p ∷ ps) h ((found, below), a) = ((found, omega arith), lower k n ps h a)

  all_parents_of_total :
      Descends
      → (fuel : ℕ) (ps : List String)
      → All (λ p. ((d : Class) × (get_class_by_uuid cs p ≡ some d)) × (rank p < fuel)) ps
      → (r : List String) × (all_parents_of (suc fuel) cs ps ≡ ok r)
  unfolding all_parents_of
  all_parents_of_total acyclic fuel [] a = ([], refl)
  all_parents_of_total acyclic zero (p ∷ ps) ((found, below), a) = absurd (omega arith)
  all_parents_of_total acyclic (suc fuel) (p ∷ ps) (((d, found), below), a) =
      let (above, e) =
        all_parents_of_total acyclic fuel d.parents
          (lower fuel (rank p) d.parents below (acyclic p d found)) in
      let (rest, f) = all_parents_of_total acyclic (suc fuel) ps a in
      (p ∷ above ++ rest, ground (arith, found, e, f))

  -- Where every parent is there and inheritance has no cycle, each class ranking above its parents,
  -- AllParents comes to a result once the fuel exceeds the ranks of the class's parents by two.
  pub all_parents_total :
      Descends
      → (fuel : ℕ) (c : Class)
      → All (λ p. ((d : Class) × (get_class_by_uuid cs p ≡ some d)) × (rank p < fuel)) c.parents
      → (r : List String) × (all_parents (suc fuel) cs c ≡ ok r)
  unfolding all_parents
  all_parents_total acyclic fuel c a = all_parents_of_total acyclic fuel c.parents a

-- What the recursion collected from a parent, from above it, and from the parents that follow.
step :
    (fuel : ℕ) (cs : List Class) (p : String) (ps r : List String)
    → all_parents_of (suc fuel) cs (p ∷ ps) ≡ ok r
    → (d : Class) × (above : List String) × (rest : List String) × (get_class_by_uuid cs p ≡ some d)
      × (all_parents_of fuel cs d.parents ≡ ok above)
      × (all_parents_of (suc fuel) cs ps ≡ ok rest)
      × (r ≡ p ∷ (above ++ rest))
unfolding all_parents_of
step fuel cs p ps r h = ground arith

module _ (cs : List Class) (q : String) where
  all_parents_of_sound :
      (fuel : ℕ) (ps r : List String) → all_parents_of fuel cs ps ≡ ok r → IsIn q r → Above cs ps q
  unfolding all_parents_of
  all_parents_of_sound zero ps r h m = cc
  all_parents_of_sound (suc fuel) [] r h m = let e : r ≡ [] = cc in absurd (subst (IsIn q) e m)
  all_parents_of_sound (suc fuel) (p ∷ ps) r h m =
      let (d, above, rest, found, up, on, e) = step fuel cs p ps r h in
      elim (subst (IsIn q) e m) [
        | inl same ↦ here same
        | inr m' ↦ elim (IsIn-append q above rest m') [
          | inl left ↦ climb found (all_parents_of_sound fuel d.parents above up left)
          | inr right ↦ there (all_parents_of_sound (suc fuel) ps rest on right)
        ]
      ]

all_parents_of_complete :
    (cs : List Class) (fuel : ℕ) {ps : List String} {q : String} (r : List String)
    → Above cs ps q
    → all_parents_of fuel cs ps ≡ ok r
    → IsIn q r
unfolding all_parents_of
all_parents_of_complete cs zero r (here _) h = cc
all_parents_of_complete cs zero r _ h = cc
all_parents_of_complete cs (suc fuel) {q = q} r (here {p = p} {ps = ps} same) h =
    let (d, above, rest, found, up, on, e) = step fuel cs p ps r h in
    subst (IsIn q) (sym e) (inl same)
all_parents_of_complete cs (suc fuel) {q = q} r (there {p = p} {ps = ps} m) h =
    let (d, above, rest, found, up, on, e) = step fuel cs p ps r h in
    subst (IsIn q) (sym e)
      (inr (IsIn-append_right q above rest (all_parents_of_complete cs (suc fuel) rest m on)))
all_parents_of_complete cs (suc fuel) {q = q} r (climb {p = p} {ps = ps} {c = c} same m) h =
    let (d, above, rest, found, up, on, e) = step fuel cs p ps r h in
    let same_class : c ≡ d = cc in
    subst (IsIn q) (sym e) (
      inr (
        IsIn-append_left q above rest (
          all_parents_of_complete cs fuel above m (
            subst (λ (x : Class). all_parents_of fuel cs x.parents ≡ ok above) (sym same_class)
              up))))

-- What `AllParents` returns is exactly what stands above the class by inheritance.
pub all_parents-Above :
    (cs : List Class) (fuel : ℕ) (c : Class) (r : List String) (q : String)
    → all_parents fuel cs c ≡ ok r
    → IsIn q r ↔ Above cs c.parents q
unfolding all_parents
all_parents-Above cs fuel c r q h =
    (all_parents_of_sound cs q fuel c.parents r h, λ m. all_parents_of_complete cs fuel r m h)
