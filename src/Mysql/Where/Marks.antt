-- ===== src/Mysql/Where/Marks.antt =====
-- db/dialect/mysql/query.go: the parameters of a condition fill its `?`.
use Prim.Native.Char.{code}
use mathlib.Core.WellFounded.{Acc}
use mathlib.Core.Logic.{dite}
use text.Mathlib.TextLemmas.{nil-append, cons-append}
use native.Mathlib.Decide.{dec_lt}
use entix.Prelude.{
  ℕ, ◌+◌, ◌/◌, ◌%◌, ◌∙◌, ◌≡◌, ◌<◌, refl, String, ◌<>◌, Bool, true, false, List, [], ◌∷◌, ◌++◌,
  length, join, show, digits_of, digit, lt_wf, arith, ◌==◌, if◌then◌else◌,
}
use entix.Mysql.Where.{place_holders, listed}

-- How many `?` a text has.
abbrev pub marks : String → ℕ
marks String.[] = 0
marks (String.◌∷◌ c s) = (if code c == b'?' then 1 else 0) + marks s

pub marks-append : (a b : String) → marks (a <> b) ≡ marks a + marks b
marks-append String.[] b = rw (nil-append b) (omega arith)
marks-append (String.◌∷◌ c s) b = rw (cons-append c s b) omega (arith, marks-append s b)

marks-if : (b : Bool) (x y : String) → marks x ≡ 0 → marks y ≡ 0 → marks (if b then x else y) ≡ 0
marks-if true x y hx hy = hx
marks-if false x y hx hy = hy

marks-digit : (d : ℕ) → marks (digit d) ≡ 0
unfolding digit
marks-digit d = marks-if (d == 0) _ _ refl (
    marks-if (d == 1) _ _ refl (
      marks-if (d == 2) _ _ refl (
        marks-if (d == 3) _ _ refl (
          marks-if (d == 4) _ _ refl (
            marks-if (d == 5) _ _ refl (
              marks-if (d == 6) _ _ refl
                (marks-if (d == 7) _ _ refl (marks-if (d == 8) _ _ refl refl))))))))

marks-dite {ℓ} :
    {P : Type ℓ} (d : Dec P) (f : P → String) (g : ¬ P → String)
    → ((h : P) → marks (f h) ≡ 0)
    → ((h : ¬ P) → marks (g h) ≡ 0)
    → marks (dite d f g) ≡ 0
marks-dite (yes h) f g hf hg = hf h
marks-dite (no h) f g hf hg = hg h

marks-digits_of : (n : ℕ) (a : Acc ◌<◌ n) → marks (digits_of n a) ≡ 0
unfolding digits_of
marks-digits_of n (Acc.intro _ smaller) =
    marks-dite (dec_lt 9 n) _ _
      (λ h.
        marks-append (digits_of (n / 10) (smaller (n / 10) (omega arith))) (digit (n % 10))
        ∙ omega (
          arith,
          marks-digits_of (n / 10) (smaller (n / 10) (omega arith)),
          marks-digit (n % 10),
        ))
      (λ _. marks-digit n)

pub marks-show : (n : ℕ) → marks (show n) ≡ 0
unfolding show
marks-show n = marks-digits_of n (lt_wf.apply n)

abbrev pub marks_all : List String → ℕ
marks_all [] = 0
marks_all (s ∷ ss) = marks s + marks_all ss

pub marks-join :
    (sep : String) (ss : List String) → marks sep ≡ 0 → marks (join sep ss) ≡ marks_all ss
unfolding join
marks-join sep [] h = refl
marks-join sep (s ∷ []) h = omega arith
marks-join sep (s ∷ t ∷ ts) h = omega (
  arith,
  h,
  marks-append s (sep <> join sep (t ∷ ts)),
  marks-append sep (join sep (t ∷ ts)),
  marks-join sep (t ∷ ts) h,
)

pub marks_all-append : (xs ys : List String) → marks_all (xs ++ ys) ≡ marks_all xs + marks_all ys
marks_all-append [] ys = omega arith
marks_all-append (x ∷ xs) ys = omega (arith, marks_all-append xs ys)

pub marks-place_holders {ℓ} : {A : Type ℓ} (vs : List A) → marks_all (place_holders vs) ≡ length vs
unfolding place_holders
marks-place_holders [] = refl
marks-place_holders (v ∷ vs) = omega (arith, marks-place_holders vs)

-- Without values there is no `?` either, if the other text has none.
pub marks-listed {ℓ} :
    {A : Type ℓ} (opening instead : String) (vs : List A)
    → marks opening ≡ 0
    → marks instead ≡ 0
    → marks (listed opening instead vs) ≡ length vs
unfolding listed
marks-listed opening instead [] h k = k
marks-listed opening instead (v ∷ vs) h k =
    let all = join "," (place_holders (v ∷ vs)) in
    marks-append opening (all <> ")")
    ∙ omega (
      arith,
      h,
      marks-append all ")",
      marks-join "," (place_holders (v ∷ vs)) refl,
      marks-place_holders (v ∷ vs),
    )
