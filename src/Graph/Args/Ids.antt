-- ===== src/Graph/Args/Ids.antt =====
-- model/graph/args.go: the identifiers of a tree, from which the aliases of the tables are made.
use entix.Prelude.{
  ℕ, suc, ◌+◌, ◌≤◌, ◌≡◌, refl, String, List, Option, none, some, Outcome, ok, err, panic, Ensures,
  Ensures->>=, get_elem?, arith, ltb, leb, ◌&&◌, ◌==◌, if◌then◌else◌, Option-cases, inl, inr,
}
use entix.Graph.{Association, Entity}
use entix.Graph.Link
use entix.Graph.Inherit.{get_association_by_name}
use entix.Graph.Args.{
  ArgEntity, arg_entity, ArgAssociations, no_association, arg_association, entity_of,
  associations_of, find_arg, set_arg, add_arg, Built, type_from_association, make_association,
  get_with_make_association, replace_arg, within, visit_association,
}

-- How often an identifier stands in a tree.
unfoldable mutual
  pub uses : ℕ → ArgEntity → ℕ
  uses k (arg_entity i e joined) = (if i == k then 1 else 0) + uses_in k joined

  pub uses_in : ℕ → ArgAssociations → ℕ
  uses_in k no_association = 0
  uses_in k (arg_association a t more) = uses k t + uses_in k more

-- Once for an identifier that the counter handed out between two states.
unfoldable pub handed_out : ℕ → ℕ → ℕ → ℕ
handed_out from to k = if ltb from k && leb k to then 1 else 0

uses-set_arg :
    (k : ℕ) (name : String) (old new : ArgEntity) (joined : ArgAssociations)
    → find_arg name joined ≡ some old
    → uses_in k (set_arg name new joined) + uses k old ≡ uses_in k joined + uses k new
unfolding uses find_arg set_arg
uses-set_arg k name old new no_association h = absurd (ground (arith, h))
uses-set_arg k name old new (arg_association a t more) h =
    ground (arith, uses-set_arg k name old new more)

uses-add_arg :
    (k : ℕ) (a : Association) (new : ArgEntity) (joined : ArgAssociations)
    → uses_in k (add_arg a new joined) ≡ uses_in k joined + uses k new
unfolding uses add_arg
uses-add_arg k a new no_association = omega arith
uses-add_arg k a new (arg_association b t more) = omega (arith, uses-add_arg k a new more)

-- A tree grows by identifiers that the counter hands out, each at most once.
abbrev pub Grows : ArgEntity → ℕ → Built → Type 0
Grows t seed done =
    (seed ≤ done.seed) × ((k : ℕ) → uses k done.tree ≤ uses k t + handed_out seed done.seed k)

pub Grows-refl : (t : ArgEntity) (seed : ℕ) → Grows t seed (record { tree = t; seed = seed })
Grows-refl t seed = (omega arith, λ k. omega arith)

handed_out_trans :
    (a b c k : ℕ) → a ≤ b → b ≤ c → handed_out a b k + handed_out b c k ≤ handed_out a c k
unfolding handed_out
handed_out_trans a b c k h j = ground arith

pub Grows-trans :
    (t : ArgEntity) (seed : ℕ) (mid last : Built)
    → Grows t seed mid
    → Grows mid.tree mid.seed last
    → Grows t seed last
Grows-trans t seed mid last (p, f) (q, g) =
    (omega arith, λ k. omega (arith, f k, g k, handed_out_trans seed mid.seed last.seed k p q))

module _ (heap : List Entity) where
  make_association-Grows :
      (name : String) (t : ArgEntity) (seed : ℕ)
      → Ensures (make_association heap name t seed) (Grows t seed)
  unfolding make_association type_from_association
  make_association-Grows name (arg_entity i e joined) seed =
      elim (Option-cases (get_association_by_name e name)) [
        | inl absent ↦ rw (Ensures, absent) tt
        | inr (a, found) ↦ elim (Option-cases (get_elem? heap (Link.type_entity a).place)) [
          | inl lost ↦ rw (Ensures, found, lost) tt
          | inr (d, there) ↦
              rw (Ensures, found, there)
                (
                  omega arith,
                  λ k.
                      let new = arg_entity (suc seed) d no_association in
                      let grown = uses-add_arg k a new joined in
                      unfold uses handed_out in ground (arith, grown),
                )
        ]
      ]

  get_with_make_association-Grows :
      (name : String) (t : ArgEntity) (seed : ℕ)
      → Ensures (get_with_make_association heap name t seed) (Grows t seed)
  unfolding get_with_make_association
  get_with_make_association-Grows name t seed =
      elim (Option-cases (find_arg name (associations_of t))) [
        | inl absent ↦ rw (Ensures, absent) (make_association-Grows name t seed)
        | inr (sub, found) ↦ rw (Ensures, found) (Grows-refl t seed)
      ]

  -- What the joined entity grows by, the tree grows by.
  replace_arg-Grows :
      (name : String) (t sub : ArgEntity) (seed : ℕ) (sub_done : Built)
      → find_arg name (associations_of t) ≡ some sub
      → Grows sub seed sub_done
      → Grows t seed (replace_arg heap name t sub_done)
  unfolding uses
  replace_arg-Grows name (arg_entity i e joined) sub seed sub_done h (p, f) =
      (p, λ k. omega (arith, uses-set_arg k name sub sub_done.tree joined h, f k))

  within-Grows :
      (name : String) (t : ArgEntity) (o : Option ArgEntity) (seed : ℕ)
      (visit : ArgEntity → Outcome Built)
      → find_arg name (associations_of t) ≡ o
      → ((sub : ArgEntity) → Ensures (visit sub) (Grows sub seed))
      → Ensures (within heap name t o visit) (Grows t seed)
  unfolding within
  within-Grows name t none seed visit h w = tt
  within-Grows name t (some sub) seed visit h w =
      Ensures->>= (Grows sub seed) (Grows t seed) (visit sub) _ (w sub)
        λ sub_done g. replace_arg-Grows name t sub seed sub_done h g

  pub visit_association-Grows :
      (key : String) (visit : ArgEntity → ℕ → Outcome Built) (t : ArgEntity) (seed : ℕ)
      → ((u : ArgEntity) (n : ℕ) → Ensures (visit u n) (Grows u n))
      → Ensures (visit_association heap key visit t seed) (Grows t seed)
  unfolding visit_association
  visit_association-Grows key visit t seed w =
      elim (Option-cases (get_association_by_name (entity_of t) key)) [
        | inl absent ↦ rw (Ensures, absent) (Grows-refl t seed)
        | inr (a, found) ↦
            rw (Ensures, found)
              (Ensures->>= (Grows t seed) (Grows t seed) (get_with_make_association heap key t seed)
                _ (get_with_make_association-Grows key t seed)
                λ mid g.
                  after mid.tree (within heap key mid.tree _ (λ sub. visit sub mid.seed)) mid.seed g
                    (within-Grows key mid.tree _ mid.seed (λ sub. visit sub mid.seed) refl
                      (λ sub. w sub mid.seed)))
      ]
    where
      after :
          (u : ArgEntity) (o : Outcome Built) (n : ℕ)
          → Grows t seed (record { tree = u; seed = n })
          → Ensures o (Grows u n)
          → Ensures o (Grows t seed)
      after u (ok done) n g h = Grows-trans t seed (record { tree = u; seed = n }) done g h
      after u (err _) n g h = tt
      after u (panic _) n g h = tt
