-- ===== src/Resolve/Loader/Groups.antt =====
-- modules/app/resolve/loaders.go: who is answered what.
use mathlib.Core.Path.{subst}
use entix.Prelude.{
  ℕ, ◌≡◌, refl, sym, true, false, List, [], ◌∷◌, none, some, ok, Ensures, Ensures->>=, Fields, IsIn,
  ◌⊎◌, inl, inr, Bool-cases,
}
use entix.Graph.{Association}
use entix.Graph.Link
use entix.Resolve.Loader.{
  is_owned_by, find_instances, Loaded, many, one, the_only, loaded, load_each,
}

-- The row came with the identifier of the owner.
abbrev pub Owned : ℕ → Fields → Type 0
Owned id m = is_owned_by id m ≡ true

module _ (a : Association) (ms : List Fields) where
  -- All rows of the owner and no others; of an association to one, the only row if there is one.
  abbrev pub Answers : ℕ → Loaded → Type 0
  Answers id (many rows) =
      (Link.is_array a ≡ true)
      × ((m : Fields) → IsIn m rows → IsIn m ms × Owned id m)
      × ((m : Fields) → IsIn m ms → Owned id m → IsIn m rows)
  Answers id (one none) = (Link.is_array a ≡ false) × ((m : Fields) → IsIn m ms → Owned id m → ⊥)
  Answers id (one (some n)) =
      (Link.is_array a ≡ false)
      × IsIn n ms
      × Owned id n
      × ((m : Fields) → IsIn m ms → Owned id m → m ≡ n)

  abbrev pub AnswersEach : List ℕ → List Loaded → Type 0
  AnswersEach [] [] = Unit
  AnswersEach (id ∷ ids) (l ∷ ls) = Answers id l × AnswersEach ids ls
  AnswersEach _ _ = ⊥

find_instances_sound :
    (id : ℕ) (ms : List Fields) (m : Fields)
    → IsIn m (find_instances id ms)
    → IsIn m ms × Owned id m
unfolding find_instances
find_instances_sound id [] m h = absurd h
find_instances_sound id (n ∷ ms) m h = elim (Bool-cases (is_owned_by id n)) [
  | inl e ↦
      let k : (n ≡ m) ⊎ IsIn m (find_instances id ms) = rw e at h in
      elim k [
        | inl q ↦ (inl q, subst (Owned id) q e)
        | inr q ↦ later (find_instances_sound id ms m q)
      ]
  | inr e ↦ later (find_instances_sound id ms m (rw e at h))
]
  where
    later : IsIn m ms × Owned id m → IsIn m (n ∷ ms) × Owned id m
    later (p, q) = (inr p, q)

find_instances_complete :
    (id : ℕ) (ms : List Fields) (m : Fields)
    → IsIn m ms
    → Owned id m
    → IsIn m (find_instances id ms)
unfolding find_instances
find_instances_complete id [] m h o = absurd h
find_instances_complete id (n ∷ ms) m (inl k) o = rw (subst (Owned id) (sym k) o) (inl k)
find_instances_complete id (n ∷ ms) m (inr k) o = elim (Bool-cases (is_owned_by id n)) [
  | inl e ↦ rw e (inr (find_instances_complete id ms m k o))
  | inr e ↦ rw e (find_instances_complete id ms m k o)
]

module _ (a : Association) (ms : List Fields) where
  the_only-Answers :
      (id : ℕ) (rows : List Fields)
      → Link.is_array a ≡ false
      → find_instances id ms ≡ rows
      → Ensures (the_only rows) (Answers a ms id)
  unfolding the_only
  the_only-Answers id [] k e = (k, λ m h o. subst (IsIn m) e (find_instances_complete id ms m h o))
  the_only-Answers id (n ∷ []) k e =
      let (h, o) = find_instances_sound id ms n (rw e (inl refl)) in
      (k, h, o, λ m q p. alone m (subst (IsIn m) e (find_instances_complete id ms m q p)))
    where
      alone : (m : Fields) → IsIn m (n ∷ []) → m ≡ n
      alone m (inl q) = sym q
      alone m (inr q) = absurd q
  the_only-Answers id (n ∷ o ∷ more) k e = tt

  loaded-Answers :
      (id : ℕ) (rows : List Fields)
      → find_instances id ms ≡ rows
      → Ensures (loaded a rows) (Answers a ms id)
  unfolding loaded
  loaded-Answers id rows e = elim (Bool-cases (Link.is_array a)) [
    | inl k ↦ rw k (
      k,
      (λ m h. find_instances_sound id ms m (rw e h)),
      (λ m h o. subst (IsIn m) e (find_instances_complete id ms m h o)),
    )
    | inr k ↦ rw k (the_only-Answers id rows k e)
  ]

  -- QueryBatchFn answers the keys in their order: for an association to many, each key all the rows
  -- that came with it as the owner, and no others; for an association to one, the only such row, or
  -- nil where there is none. It panics for no association to many.
  pub load_each-Answers :
      (ids : List ℕ)
      → Ensures (load_each a ms ids) (AnswersEach a ms ids)
        × (Link.is_array a ≡ true → (ls : List Loaded) × (load_each a ms ids ≡ ok ls))
  unfolding load_each loaded
  load_each-Answers [] = (tt, λ k. ([], refl))
  load_each-Answers (id ∷ ids) =
      let (each, all) = load_each-Answers ids in
      (
        Ensures->>= (Answers a ms id) (AnswersEach a ms (id ∷ ids))
            (loaded a (find_instances id ms)) _ (loaded-Answers id _ refl)
            (λ l h.
              Ensures->>= (AnswersEach a ms ids) (AnswersEach a ms (id ∷ ids)) (load_each a ms ids)
                _ each (λ ls hs. (h, hs))),
        λ k. let (ls, e) = all k in (many (find_instances id ms) ∷ ls, rw (k, e) refl),
      )
