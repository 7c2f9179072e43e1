-- ===== src/Mysql/Where/Whole.antt =====
-- db/dialect/mysql/query.go: `BuildBoolExp` as a whole.
use entix.Prelude.{
  ◌≡◌, refl, ◌∙◌, String, ◌<>◌, [], Option, none, some, Outcome, ok, err, panic, ◌>>=◌, length,
  Value, null, str, num, int, bool, texts, nums, list, maps, obj, Items, nil, item, Maps, no_map,
  add_map, Fields, end, field, to_map, arith, Bool-cases, inl, inr, ◌=?◌, if◌then◌else◌, show,
}
use entix.Graph.{Association}
use entix.Graph.Inherit.{get_association_by_name}
use entix.Graph.Args.{ArgEntity, entity_of, associations_of, find_arg, alise, id_of, not_found}
use entix.Mysql.Where.{
  Exp, Clause, conjunction, negation, disjunction, named, clause_of, Parts, field_part,
  build_association, build_named, build_clause, build_parts, build_sub, build_each, build_items,
  build_maps, build_bool_exp, build_where_sql,
}
use entix.Mysql.Where.Marks.{marks, marks-append, marks-show}
use entix.Mysql.Where.Asks.{
  Asks, AsksSub, AsksEach, AsksItems, AsksMaps, AsksClause, AsksNamed, AsksJoined,
}
use entix.Mysql.Where.Filled.{
  Filled, AllFilled, field_part-AllFilled, association_part-AllFilled, joined-Filled,
  both-AllFilled, one_more-AllFilled, disjoined-AllFilled, conjoined-AllFilled,
}

marks-field_name : (t : ArgEntity) (k : String) → marks k ≡ 0 → marks (alise t <> ("." <> k)) ≡ 0
unfolding alise
marks-field_name t k h =
    marks-append (alise t) ("." <> k)
    ∙ omega (arith, marks-append "t" (show (id_of t)), marks-show (id_of t), marks-append "." k, h)

build_named-AllFilled :
    (t : ArgEntity) (k : String) (v : Value) (a : Option Association) (A : ArgEntity → Type 0)
    (visit : ArgEntity → Outcome Exp)
    → ((sub : ArgEntity) → A sub → Filled (visit sub))
    → AsksNamed t k v a A
    → AllFilled (build_named t k v a visit)
unfolding build_named field_part build_association
build_named-AllFilled t k v none A visit f (h, asks) =
    field_part-AllFilled (alise t <> ("." <> k)) (to_map v) (marks-field_name t k h) asks
build_named-AllFilled t k v (some a) A visit f asks = go (find_arg k (associations_of t)) asks
  where
    go :
        (sub : Option ArgEntity)
        → AsksJoined sub A
        → AllFilled (build_association (not_found (entity_of t) k) sub visit)
    go none asks = elim asks [ ]
    go (some sub) asks = association_part-AllFilled (visit sub) (f sub asks)

build_clause-AllFilled :
    (t : ArgEntity) (k : String) (v : Value) (c : Clause) (E : Type 0) (A : ArgEntity → Type 0)
    (each : Outcome Parts) (visit : ArgEntity → Outcome Exp)
    → (E → AllFilled each)
    → ((sub : ArgEntity) → A sub → Filled (visit sub))
    → AsksClause t k v c E A
    → AllFilled (build_clause t k v c each visit)
unfolding build_clause
build_clause-AllFilled t k v conjunction E A each visit e f asks = e asks
build_clause-AllFilled t k v negation E A each visit e f asks = refl
build_clause-AllFilled t k v disjunction E A each visit e f asks = disjoined-AllFilled each (e asks)
build_clause-AllFilled t k v named E A each visit e f asks =
    build_named-AllFilled t k v (get_association_by_name (entity_of t) k) A visit f asks

mutual
  unfolding build_parts Asks

  build_parts-AllFilled : (m : Fields) (t : ArgEntity) → Asks t m → AllFilled (build_parts t m)
  build_parts-AllFilled end t a = refl
  build_parts-AllFilled (field k v m) t (c, a) =
      both-AllFilled _ _
        (build_clause-AllFilled t k v (clause_of k) (AsksEach t v) (λ sub. AsksSub sub v)
          (build_each t v) (λ sub. build_sub sub v) (build_each-AllFilled v t) (build_sub-Filled v)
          c)
        (build_parts-AllFilled m t a)

  build_sub-Filled : (v : Value) (t : ArgEntity) → AsksSub t v → Filled (build_sub t v)
  build_sub-Filled (obj m) t a =
      joined-Filled " AND " (build_parts t m) refl (build_parts-AllFilled m t a)
  build_sub-Filled null t a = elim a [ ]
  build_sub-Filled (str _) t a = elim a [ ]
  build_sub-Filled (num _) t a = elim a [ ]
  build_sub-Filled (int _) t a = elim a [ ]
  build_sub-Filled (bool _) t a = elim a [ ]
  build_sub-Filled (texts _) t a = elim a [ ]
  build_sub-Filled (nums _) t a = elim a [ ]
  build_sub-Filled (list _) t a = elim a [ ]
  build_sub-Filled (maps _) t a = elim a [ ]

  build_each-AllFilled : (v : Value) (t : ArgEntity) → AsksEach t v → AllFilled (build_each t v)
  build_each-AllFilled (list vs) t a = build_items-AllFilled vs t a
  build_each-AllFilled (maps ms) t a = build_maps-AllFilled ms t a
  build_each-AllFilled null t a = elim a [ ]
  build_each-AllFilled (str _) t a = elim a [ ]
  build_each-AllFilled (num _) t a = elim a [ ]
  build_each-AllFilled (int _) t a = elim a [ ]
  build_each-AllFilled (bool _) t a = elim a [ ]
  build_each-AllFilled (texts _) t a = elim a [ ]
  build_each-AllFilled (nums _) t a = elim a [ ]
  build_each-AllFilled (obj _) t a = elim a [ ]

  build_items-AllFilled :
      (vs : Items) (t : ArgEntity) → AsksItems t vs → AllFilled (build_items t vs)
  build_items-AllFilled nil t a = refl
  build_items-AllFilled (item v vs) t (a, as') =
      one_more-AllFilled (build_sub t v) (build_items t vs) (build_sub-Filled v t a)
        (build_items-AllFilled vs t as')

  build_maps-AllFilled : (ms : Maps) (t : ArgEntity) → AsksMaps t ms → AllFilled (build_maps t ms)
  build_maps-AllFilled no_map t a = refl
  build_maps-AllFilled (add_map m ms) t (a, as') =
      conjoined-AllFilled (build_parts t m) (build_maps t ms) (build_parts-AllFilled m t a)
        (build_maps-AllFilled ms t as')

found-Filled :
    (o : Outcome Exp) → Filled o → (e : Exp) × (o ≡ ok e) × (marks e.text ≡ length e.params)
found-Filled (ok e) f = (e, refl, f)
found-Filled (err _) f = elim f [ ]
found-Filled (panic _) f = elim f [ ]

kept-Filled :
    (o : Outcome Exp)
    → Filled o
    → Filled (o >>= λ e. ok (if e.text =? "" then record { text = ""; params = [] } else e))
kept-Filled (ok e) f = elim (Bool-cases (e.text =? "")) [ inl c ↦ rw c refl | inr c ↦ rw c f ]
kept-Filled (err _) f = elim f [ ]
kept-Filled (panic _) f = elim f [ ]

-- A condition that asks one operator at most of each field, of those that write a `?` for their
-- value, `_in` of a list, `_notIn` of texts, or `_isNull`, and names only fields without `?` and associations that
-- the tree has, becomes an SQL text without a panic, and the text has as many `?` as there are
-- parameters.
pub build_where_sql-fills :
    (t : ArgEntity) (m : Fields)
    → Asks t m
    → (e : Exp) × (build_where_sql t (some m) ≡ ok e) × (marks e.text ≡ length e.params)
build_where_sql-fills t m a = found-Filled (build_where_sql t (some m)) (
    unfold build_where_sql build_bool_exp in
    kept-Filled _ (joined-Filled " AND " (build_parts t m) refl (build_parts-AllFilled m t a)))
