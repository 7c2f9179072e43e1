-- ===== src/Mysql/Where/Filled.antt =====
-- db/dialect/mysql/query.go: `BuildBoolExp` fills every `?` with a parameter.
use entix.Prelude.{
  ◌≡◌, refl, ◌∙◌, String, ◌<>◌, true, List, [], ◌∷◌, map, Outcome, ok, err, panic, ◌>>=◌, length,
  length-append, join, Value, str, bool, Fields, end, field, arith, ◌=?◌, if◌then◌else◌, Bool-cases,
  inl, inr,
}
use entix.Mysql.Where.{
  Exp, Operator, compares, is_in, not_in, tests_null, unknown, operator_of, apply_operator,
  apply_operators, build_field_exp, Parts, no_part, both, joined, association_part,
}
use entix.Mysql.Where.Marks.{
  marks, marks_all, marks-append, marks-join, marks_all-append, marks-listed,
}
use entix.Mysql.Where.Asks.{AsksOperator, AsksField}

-- There is a result, and its parameters are as many as its `?`.
abbrev pub Filled : Outcome Exp → Type 0
Filled (ok e) = marks e.text ≡ length e.params
Filled _ = ⊥

abbrev pub AllFilled : Outcome Parts → Type 0
AllFilled (ok p) = marks_all p.querys ≡ length p.params
AllFilled _ = ⊥

marks-paren : (s : String) → marks ("(" <> (s <> ")")) ≡ marks s
marks-paren s = marks-append "(" (s <> ")") ∙ omega (arith, marks-append s ")")

length-strs : (ss : List String) → length (map str ss) ≡ length ss
length-strs [] = refl
length-strs (s ∷ ss) = omega (arith, length-strs ss)

abbrev empty : Exp
empty = record { text = ""; params = [] }

apply_operator-Filled :
    (name k : String) (op : Operator) (v : Value)
    → marks name ≡ 0
    → AsksOperator op v
    → Filled (apply_operator name k op v empty)
unfolding apply_operator
apply_operator-Filled name k (compares suffix) v h a = omega (arith, marks-append name suffix, h, a)
apply_operator-Filled name k is_in v h (vs, e) =
    rw e
      (marks-listed (name <> " IN(") " false " vs (omega (arith, marks-append name " IN(", h)) refl)
apply_operator-Filled name k not_in v h (ss, e) = rw e (
    marks-listed (name <> " NOT IN(") " true " ss (omega (arith, marks-append name " NOT IN(", h))
      refl
    ∙ omega (arith, length-strs ss))
apply_operator-Filled name k tests_null (bool true) h a =
    marks-append "ISNULL(" (name <> ")") ∙ omega (arith, marks-append name ")", h)
apply_operator-Filled name k tests_null _ h a = refl
apply_operator-Filled name k unknown v h a = elim a [ ]

-- The expression of a field with one operator, in parentheses.
paren-Filled :
    (o : Outcome Exp)
    → Filled o
    → Filled (
        o >>= (λ e. ok e) >>= λ e. ok (record { text = "(" <> (e.text <> ")"); params = e.params }))
paren-Filled (ok e) h = marks-paren e.text ∙ h
paren-Filled (err _) h = elim h [ ]
paren-Filled (panic _) h = elim h [ ]

build_field_exp-Filled :
    (name : String) (m : Fields)
    → marks name ≡ 0
    → AsksField (ok m)
    → Filled (build_field_exp name m)
unfolding build_field_exp apply_operators
build_field_exp-Filled name end h a = refl
build_field_exp-Filled name (field k v end) h a =
    paren-Filled _ (apply_operator-Filled name k (operator_of k) v h a)
build_field_exp-Filled name (field k v (field _ _ _)) h a = elim a [ ]

-- The texts in parentheses that are kept, and none for an empty one.
kept-AllFilled :
    (e : Exp) (p : Parts)
    → marks e.text ≡ length e.params
    → marks_all p.querys ≡ length p.params
    → AllFilled (
        ok (
          if e.text =? ""
          then p
          else record { querys = ("(" <> (e.text <> ")")) ∷ []; params = e.params }))
kept-AllFilled e p h k = elim (Bool-cases (e.text =? "")) [
  | inl c ↦ rw c k
  | inr c ↦ rw c (omega (arith, marks-paren e.text, h))
]

pub field_part-AllFilled :
    (name : String) (o : Outcome Fields)
    → marks name ≡ 0
    → AsksField o
    → AllFilled (
        o >>= λ m. build_field_exp name m >>= λ e. ok (
          if e.text =? ""
          then no_part
          else record { querys = ("(" <> (e.text <> ")")) ∷ []; params = e.params }))
field_part-AllFilled name (ok m) h a =
    go (build_field_exp name m) (build_field_exp-Filled name m h a)
  where
    go :
        (o : Outcome Exp)
        → Filled o
        → AllFilled (
            o >>= λ e. ok (
              if e.text =? ""
              then no_part
              else record { querys = ("(" <> (e.text <> ")")) ∷ []; params = e.params }))
    go (ok e) f = kept-AllFilled e no_part f refl
    go (err _) f = elim f [ ]
    go (panic _) f = elim f [ ]
field_part-AllFilled name (err _) h a = elim a [ ]
field_part-AllFilled name (panic _) h a = elim a [ ]

pub association_part-AllFilled :
    (o : Outcome Exp) → Filled o → AllFilled (o >>= λ e. ok (association_part e))
unfolding association_part
association_part-AllFilled (ok e) f =
    kept-AllFilled e (record { querys = "" ∷ []; params = [] }) f refl
association_part-AllFilled (err _) f = elim f [ ]
association_part-AllFilled (panic _) f = elim f [ ]

pub joined-Filled :
    (sep : String) (o : Outcome Parts)
    → marks sep ≡ 0
    → AllFilled o
    → Filled (o >>= λ p. ok (joined sep p))
joined-Filled sep (ok p) h f = marks-join sep p.querys h ∙ f
joined-Filled sep (err _) h f = elim f [ ]
joined-Filled sep (panic _) h f = elim f [ ]

pub both-AllFilled :
    (o u : Outcome Parts)
    → AllFilled o
    → AllFilled u
    → AllFilled (o >>= λ p. u >>= λ q. ok (both p q))
both-AllFilled (ok p) (ok q) f g =
    omega (arith, marks_all-append p.querys q.querys, length-append p.params q.params, f, g)
both-AllFilled (ok p) (err _) f g = elim g [ ]
both-AllFilled (ok p) (panic _) f g = elim g [ ]
both-AllFilled (err _) u f g = elim f [ ]
both-AllFilled (panic _) u f g = elim f [ ]

pub one_more-AllFilled :
    (o : Outcome Exp) (u : Outcome Parts)
    → Filled o
    → AllFilled u
    → AllFilled
        (o >>= λ e. u >>= λ q. ok (both (record { querys = e.text ∷ []; params = e.params }) q))
one_more-AllFilled (ok e) (ok q) f g = omega (arith, length-append e.params q.params, f, g)
one_more-AllFilled (ok e) (err _) f g = elim g [ ]
one_more-AllFilled (ok e) (panic _) f g = elim g [ ]
one_more-AllFilled (err _) u f g = elim f [ ]
one_more-AllFilled (panic _) u f g = elim f [ ]

pub disjoined-AllFilled :
    (o : Outcome Parts)
    → AllFilled o
    → AllFilled (o >>= λ p. ok (record { querys = join " OR " p.querys ∷ []; params = p.params }))
disjoined-AllFilled (ok p) f = omega (arith, marks-join " OR " p.querys refl, f)
disjoined-AllFilled (err _) f = elim f [ ]
disjoined-AllFilled (panic _) f = elim f [ ]

pub conjoined-AllFilled :
    (o u : Outcome Parts)
    → AllFilled o
    → AllFilled u
    → AllFilled (
        o >>= λ p.
        u >>= λ q. ok (both (record { querys = join " AND " p.querys ∷ []; params = p.params }) q))
conjoined-AllFilled (ok p) (ok q) f g =
    omega (arith, marks-join " AND " p.querys refl, length-append p.params q.params, f, g)
conjoined-AllFilled (ok p) (err _) f g = elim g [ ]
conjoined-AllFilled (ok p) (panic _) f g = elim g [ ]
conjoined-AllFilled (err _) u f g = elim f [ ]
conjoined-AllFilled (panic _) u f g = elim f [ ]
