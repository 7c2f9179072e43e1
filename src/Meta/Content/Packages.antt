-- ===== src/Meta/Content/Packages.antt =====
-- model/meta/meta.go: the packages of a model get as many slots as there are relations.
use entix.Prelude.{
  ℕ, zero, suc, ◌≤◌, ◌<◌, ◌≡◌, refl, List, [], ◌∷◌, Option, ok, panic, length, arith,
}
use entix.Meta.{MetaContent, PackageMeta}
use entix.Meta.Content.{Model, fill_packages, assemble, new}

fill_packages_fits :
    (n : ℕ) (ps : List PackageMeta)
    → length ps ≤ n
    → (qs : List (Option PackageMeta)) × (fill_packages n ps ≡ ok qs)
unfolding fill_packages
fill_packages_fits zero [] h = ([], refl)
fill_packages_fits (suc n) [] h =
    let (qs, e) = fill_packages_fits n [] (omega arith) in (Option.none ∷ qs, rw e)
fill_packages_fits zero (p ∷ ps) h = absurd (omega arith)
fill_packages_fits (suc n) (p ∷ ps) h =
    let (qs, e) = fill_packages_fits n ps (omega arith) in (Option.some p ∷ qs, rw e)

fill_packages_overflows :
    (n : ℕ) (ps : List PackageMeta)
    → n < length ps
    → fill_packages n ps ≡ panic "index out of range"
unfolding fill_packages
fill_packages_overflows zero [] h = absurd (omega arith)
fill_packages_overflows zero (p ∷ ps) h = refl
fill_packages_overflows (suc n) [] h = absurd (omega arith)
fill_packages_overflows (suc n) (p ∷ ps) h = rw (fill_packages_overflows n ps (omega arith))

-- A content is turned into a model if it has no more packages than relations, and panics with an
-- index out of range if it has more.
pub new_total :
    (m : MetaContent) (app_id : ℕ)
    → (length m.packages ≤ length m.relations → (r : Model) × (new m app_id ≡ ok r))
      × (length m.relations < length m.packages → new m app_id ≡ panic "index out of range")
unfolding new
new_total m app_id = (
  λ h.
      let (qs, e) = fill_packages_fits (length m.relations) m.packages h in
      (assemble m app_id qs, rw e),
  λ h. rw (fill_packages_overflows (length m.relations) m.packages h),
)
