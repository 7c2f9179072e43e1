-- ===== src/Schema/Offered.antt =====
-- modules/app/schema/parser/comparison.go, property.go; db/dialect/mysql/query.go (BuildFieldExp): what
-- the schema lets a call ask is what the statements are built for.
use mathlib.Core.Path.{subst}
use entix.Prelude.{
  ◌≡◌, refl, String, ◌<>◌, Bool, true, false, List, [], ◌∷◌, ◌++◌, Option, none, some, Outcome, ok,
  panic, All, All-append, Ensures, Ensures-if, Bool-cases, inl, inr, contains, ◌||◌, Value, list,
  bool, ◌=?◌,
}
use entix.Consts
use entix.Meta.{AttributeMeta}
use entix.Meta.TypeName
use entix.Domain
use entix.Mysql.Where.{Exp, compares, apply_operator, operator_of}
use entix.Schema.{
  GraphType, list_of, int, float, id, date_time, boolean, string, InputField, InputObject, takes,
  Map, find_key, set_key,
}
use entix.Schema.Comparison.{
  Made, compared, nullable, matched, new_enum_exp, enum_fields, boolean_comparison_exp,
  date_time_comparison_exp, float_comparison_exp, int_comparison_exp, id_comparison_exp,
  string_comparison_exp, enum_comparison_exp, cached_enum_exp,
}
use entix.Schema.Property.{attribute_exp, found, enum_of, structured, textual}

-- A value of a type, as the GraphQL library hands it over: a list is a `[]interface{}`.
abbrev pub IsGiven : GraphType → Value → Type 0
IsGiven (list_of t) (list vs) = Unit
IsGiven (list_of t) _ = ⊥
IsGiven boolean (bool b) = Unit
IsGiven boolean _ = ⊥
IsGiven _ _ = Unit

-- No panic, but for `_notIn`, which always panics.
abbrev pub Builds : Bool → Outcome Exp → Type 0
Builds is_not_in r =
    (is_not_in ≡ false → (e : Exp) × (r ≡ ok e))
    × (is_not_in ≡ true → r ≡ panic "interface conversion")

abbrev pub Accepts : InputField → Type 0
Accepts f =
    (name : String) (v : Value) (e : Exp)
    → IsGiven f.type v
    → Builds (f.name =? Consts.arg_notin) (apply_operator name f.name (operator_of f.name) v e)

abbrev pub AcceptsAll : InputObject → Type 0
AcceptsAll o = All Accepts o.fields

-- An operator that appends its text takes any value.
compares-Accepts :
    (key suffix : String) (t : GraphType)
    → operator_of key ≡ compares suffix
    → (key =? Consts.arg_notin) ≡ false
    → Accepts (takes key t)
unfolding apply_operator
compares-Accepts key suffix t h k name v e given =
    ((λ _. (record { text = name <> suffix; params = e.params ++ v ∷ [] }, rw h refl)), λ q. cc)

in-Accepts : (t : GraphType) → Accepts (takes Consts.arg_in (list_of t))
unfolding apply_operator operator_of
in-Accepts t name (list vs) e given = ((λ _. (_, refl)), λ q. cc)
in-Accepts t name _ e given = absurd given

not_in-Accepts : (t : GraphType) → Accepts (takes Consts.arg_notin (list_of t))
unfolding apply_operator operator_of
not_in-Accepts t name (list vs) e given = ((λ q. cc), λ _. refl)
not_in-Accepts t name _ e given = absurd given

is_null-Accepts : Accepts (takes Consts.arg_isnull boolean)
unfolding apply_operator operator_of
is_null-Accepts name (bool true) e given = ((λ _. (_, refl)), λ q. cc)
is_null-Accepts name (bool false) e given = ((λ _. (_, refl)), λ q. cc)
is_null-Accepts name _ e given = absurd given

compared-Accepts : (t : GraphType) → All Accepts (compared t)
unfolding operator_of
compared-Accepts t = (
  compares-Accepts _ _ t refl refl,
  (
    compares-Accepts _ _ t refl refl,
    (
      compares-Accepts _ _ t refl refl,
      (
        in-Accepts t,
        (
          compares-Accepts _ _ t refl refl,
          (
            compares-Accepts _ _ t refl refl,
            (compares-Accepts _ _ t refl refl, (not_in-Accepts t, tt)),
          ),
        ),
      ),
    ),
  ),
)

nullable-Accepts : All Accepts nullable
nullable-Accepts = (is_null-Accepts, tt)

both-Accepts : (t : GraphType) → All Accepts (compared t ++ nullable)
both-Accepts t = All-append Accepts (compared t) nullable (compared-Accepts t) nullable-Accepts

string-Accepts : AcceptsAll string_comparison_exp
unfolding string_comparison_exp operator_of
string-Accepts = All-append Accepts (compared string ++ nullable) matched (both-Accepts string) (
  compares-Accepts _ _ string refl refl,
  (
    compares-Accepts _ _ string refl refl,
    (
      compares-Accepts _ _ string refl refl,
      (
        compares-Accepts _ _ string refl refl,
        (compares-Accepts _ _ string refl refl, (compares-Accepts _ _ string refl refl, tt)),
      ),
    ),
  ),
)

enum_fields-Accepts : All Accepts enum_fields
unfolding enum_fields operator_of
enum_fields-Accepts = (
  compares-Accepts _ _ string refl refl,
  (
    in-Accepts string,
    (is_null-Accepts, (compares-Accepts _ _ string refl refl, (not_in-Accepts string, tt))),
  ),
)

-- The types of enums that were made before accept what they offer.
abbrev pub AreSound : Map InputObject → Type 0
AreSound exps = All (λ entry. AcceptsAll entry.1) exps

find_key-Accepts :
    (key : String) (exps : Map InputObject) (e : InputObject)
    → AreSound exps
    → find_key key exps ≡ some e
    → AcceptsAll e
unfolding find_key
find_key-Accepts key [] e h k = cc
find_key-Accepts key ((j, o) ∷ m) e (h, hs) k = elim (Bool-cases (j =? key)) [
  | inl q ↦ let n : some o ≡ some e = rw q at k in let same : o ≡ e = cc in subst AcceptsAll same h
  | inr q ↦ find_key-Accepts key m e hs (rw q at k)
]

set_key-AreSound :
    (key : String) (o : InputObject) (exps : Map InputObject)
    → AcceptsAll o
    → AreSound exps
    → AreSound (set_key key o exps)
unfolding set_key
set_key-AreSound key o [] h hs = (h, tt)
set_key-AreSound key o ((j, p) ∷ m) h (k, ks) = elim (Bool-cases (j =? key)) [
  | inl q ↦ rw q (h, ks)
  | inr q ↦ rw q (k, set_key-AreSound key o m h ks)
]

-- What is offered for an attribute, if anything, accepts what it offers, and so does all that was made.
abbrev pub Offers : Made (Option InputObject) → Type 0
Offers m = (elim m.made [ none ↦ Unit {0} | some o ↦ AcceptsAll o ]) × AreSound m.enum_exps

abbrev OffersOne : Made InputObject → Type 0
OffersOne m = AcceptsAll m.made × AreSound m.enum_exps

cached_enum_exp-Offers :
    (name : String) (exps : Map InputObject) (o : Option InputObject)
    → find_key name exps ≡ o
    → AreSound exps
    → OffersOne (cached_enum_exp name exps o)
unfolding cached_enum_exp new_enum_exp
cached_enum_exp-Offers name exps none e h =
    (enum_fields-Accepts, set_key-AreSound name (new_enum_exp name) exps enum_fields-Accepts h)
cached_enum_exp-Offers name exps (some o) e h = (find_key-Accepts name exps o h e, h)

enum-Offers :
    (o : Option Domain.Enum) (exps : Map InputObject)
    → AreSound exps
    → Ensures (found (enum_comparison_exp o exps)) Offers
unfolding enum_comparison_exp
enum-Offers none exps h = tt
enum-Offers (some e) exps h = cached_enum_exp-Offers e.name exps _ refl h

-- Where the enum types made before offer such operators only, then whatever the type of an
-- attribute, BuildFieldExp takes each operator that the schema offers for it without a panic, with
-- any value of the type that the schema gives the operator, but for `_notIn`, on which it always
-- panics; and the enum types made with it offer such operators only.
pub attribute_exp-Offers :
    (enums : List Domain.Enum) (a : AttributeMeta) (exps : Map InputObject)
    → AreSound exps
    → Ensures (attribute_exp enums a exps) Offers
unfolding attribute_exp boolean_comparison_exp date_time_comparison_exp float_comparison_exp
    int_comparison_exp id_comparison_exp
attribute_exp-Offers enums a exps h =
    Ensures-if Offers (a.type =? TypeName.int) _ _ (both-Accepts int, h)
      (Ensures-if Offers (a.type =? TypeName.float) _ _ (both-Accepts float, h)
        (Ensures-if Offers (a.type =? TypeName.boolean) _ _ (both-Accepts boolean, h)
          (Ensures-if Offers (contains textual a.type) _ _ (string-Accepts, h)
            (Ensures-if Offers (a.type =? TypeName.date) _ _ (both-Accepts date_time, h)
              (Ensures-if Offers (contains structured a.type || (a.type =? TypeName.file)) _ _
                (tt, h)
                (Ensures-if Offers (a.type =? TypeName.id) _ _ (compared-Accepts id, h)
                  (Ensures-if Offers (a.type =? TypeName.enum) _ _
                    (enum-Offers (enum_of enums a) exps h) tt)))))))
