-- ===== src/Graph/Args/Distinct.antt =====
-- model/graph/args.go: the identifiers of the tree that `BuildArgEntity` returns.
use entix.Prelude.{
  ℕ, suc, ◌≤◌, ◌<◌, List, Outcome, ok, err, panic, ◌>>=◌, Ensures, Ensures->>=, Ensures-if, Value,
  null, str, num, int, bool, texts, nums, obj, list, maps, Items, nil, item, Maps, no_map, add_map,
  Fields, end, field, arith, ◌||◌, ◌=?◌,
}
use entix.Consts
use entix.Graph.{Entity}
use entix.Graph.Args.{
  ArgEntity, arg_entity, no_association, Built, build_where_entity, build_sub, build_all,
  build_maps, build_items, build_element, build_arg_entity,
}
use entix.Graph.Args.Ids.{uses, handed_out, Grows, Grows-refl, Grows-trans, visit_association-Grows}

-- One step after another.
Grows->>= :
    (t : ArgEntity) (seed : ℕ) (o : Outcome Built) (f : Built → Outcome Built)
    → Ensures o (Grows t seed)
    → ((mid : Built) → Ensures (f mid) (Grows mid.tree mid.seed))
    → Ensures (o >>= f) (Grows t seed)
Grows->>= t seed o f h w =
    Ensures->>= (Grows t seed) (Grows t seed) o f h λ mid g. go mid (f mid) g (w mid)
  where
    go :
        (mid : Built) (u : Outcome Built)
        → Grows t seed mid
        → Ensures u (Grows mid.tree mid.seed)
        → Ensures u (Grows t seed)
    go mid (ok last) g h = Grows-trans t seed mid last g h
    go mid (err _) g h = tt
    go mid (panic _) g h = tt

module _ (heap : List Entity) where
  mutual
    unfolding build_where_entity

    build_where_entity-Grows :
        (m : Fields) (t : ArgEntity) (seed : ℕ)
        → Ensures (build_where_entity heap m t seed) (Grows t seed)
    build_where_entity-Grows end t seed = Grows-refl t seed
    build_where_entity-Grows (field key value rest) t seed =
        Grows->>= t seed _ (λ mid. build_where_entity heap rest mid.tree mid.seed)
          (Ensures-if (Grows t seed) (key =? Consts.arg_not) _ _ (build_sub-Grows value t seed) (
            Ensures-if (Grows t seed) (key =? Consts.arg_and || key =? Consts.arg_or) _ _
              (build_all-Grows value t seed)
              (visit_association-Grows heap key (build_sub heap value) t seed
                (build_sub-Grows value))))
          (λ mid. build_where_entity-Grows rest mid.tree mid.seed)

    build_sub-Grows :
        (v : Value) (t : ArgEntity) (seed : ℕ) → Ensures (build_sub heap v t seed) (Grows t seed)
    build_sub-Grows (obj m) t seed = build_where_entity-Grows m t seed
    build_sub-Grows null t seed = Grows-refl t seed
    build_sub-Grows (str _) t seed = Grows-refl t seed
    build_sub-Grows (num _) t seed = Grows-refl t seed
    build_sub-Grows (int _) t seed = Grows-refl t seed
    build_sub-Grows (bool _) t seed = Grows-refl t seed
    build_sub-Grows (texts _) t seed = Grows-refl t seed
    build_sub-Grows (nums _) t seed = Grows-refl t seed
    build_sub-Grows (list _) t seed = Grows-refl t seed
    build_sub-Grows (maps _) t seed = Grows-refl t seed

    build_all-Grows :
        (v : Value) (t : ArgEntity) (seed : ℕ) → Ensures (build_all heap v t seed) (Grows t seed)
    build_all-Grows (maps ms) t seed = build_maps-Grows ms t seed
    build_all-Grows (list vs) t seed = build_items-Grows vs t seed
    build_all-Grows null t seed = tt
    build_all-Grows (str _) t seed = tt
    build_all-Grows (num _) t seed = tt
    build_all-Grows (int _) t seed = tt
    build_all-Grows (bool _) t seed = tt
    build_all-Grows (texts _) t seed = tt
    build_all-Grows (nums _) t seed = tt
    build_all-Grows (obj _) t seed = tt

    build_maps-Grows :
        (ms : Maps) (t : ArgEntity) (seed : ℕ) → Ensures (build_maps heap ms t seed) (Grows t seed)
    build_maps-Grows no_map t seed = Grows-refl t seed
    build_maps-Grows (add_map m ms) t seed =
        Grows->>= t seed _ (λ mid. build_maps heap ms mid.tree mid.seed)
          (build_where_entity-Grows m t seed) (λ mid. build_maps-Grows ms mid.tree mid.seed)

    build_items-Grows :
        (vs : Items) (t : ArgEntity) (seed : ℕ)
        → Ensures (build_items heap vs t seed) (Grows t seed)
    build_items-Grows nil t seed = Grows-refl t seed
    build_items-Grows (item v vs) t seed =
        Grows->>= t seed _ (λ mid. build_items heap vs mid.tree mid.seed)
          (build_element-Grows v t seed) (λ mid. build_items-Grows vs mid.tree mid.seed)

    build_element-Grows :
        (v : Value) (t : ArgEntity) (seed : ℕ)
        → Ensures (build_element heap v t seed) (Grows t seed)
    build_element-Grows (obj m) t seed = build_where_entity-Grows m t seed
    build_element-Grows null t seed = tt
    build_element-Grows (str _) t seed = tt
    build_element-Grows (num _) t seed = tt
    build_element-Grows (int _) t seed = tt
    build_element-Grows (bool _) t seed = tt
    build_element-Grows (texts _) t seed = tt
    build_element-Grows (nums _) t seed = tt
    build_element-Grows (list _) t seed = tt
    build_element-Grows (maps _) t seed = tt

-- In the tree that `BuildArgEntity` returns for a condition, no identifier stands twice, and each is
-- one that the session handed out during the call.
pub build_arg_entity-Grows :
    (heap : List Entity) (e : Entity) (where_value : Value) (seed : ℕ)
    → Ensures
        (build_arg_entity heap e where_value seed)
        λ built. (seed < built.seed) × ((k : ℕ) → uses k built.tree ≤ handed_out seed built.seed k)
unfolding build_arg_entity uses handed_out
build_arg_entity-Grows heap e v seed =
    let root = arg_entity (suc seed) e no_association in
    go (build_sub heap v root (suc seed)) (build_sub-Grows heap v root (suc seed))
  where
    go :
        (o : Outcome Built)
        → Ensures o (Grows (arg_entity (suc seed) e no_association) (suc seed))
        → Ensures o λ built.
          (seed < built.seed) × ((k : ℕ) → uses k built.tree ≤ handed_out seed built.seed k)
    go (ok built) (p, f) = (omega arith, λ k. let g = f k in ground (arith, g))
    go (err _) h = tt
    go (panic _) h = tt
