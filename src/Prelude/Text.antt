-- ===== src/Prelude/Text.antt =====
-- `strings.Join`, and `fmt`'s verb `%d` for a number that is not negative.
use Prim.Native.Nat.{ℕ, zero, suc, ◌/◌, ◌%◌, ◌<◌}
use Prim.Native.String.{String, ◌++◌ as ◌<>◌}
use mathlib.Core.Logic.{dite}
use mathlib.Core.List.{List, [], ◌∷◌}
use mathlib.Core.WellFounded.{Acc, WellFounded}
use native.Mathlib.Omega.{arith}
use native.Mathlib.Decide.{dec_lt}
use entix.Prelude.Tests.{if◌then◌else◌, ◌==◌}

unfoldable pub join : String → List String → String
join sep [] = ""
join sep (x ∷ []) = x
join sep (x ∷ y ∷ ys) = x <> (sep <> join sep (y ∷ ys))

Acc-below : (k n : ℕ) → n < k → Acc ◌<◌ n
Acc-below zero n h = elim h [ ]
Acc-below (suc k) n h = Acc.intro n λ m hm. Acc-below k m (omega arith)

unfoldable pub lt_wf : WellFounded ◌<◌
unfolding Acc-below
lt_wf = record { apply = λ n. Acc-below (suc n) n (omega arith) }

unfoldable pub digit : ℕ → String
digit d =
    if d == 0
    then "0"
    else if d == 1
    then "1"
    else if d == 2
    then "2"
    else if d == 3
    then "3"
    else if d == 4
    then "4"
    else if d == 5
    then "5"
    else if d == 6
    then "6"
    else if d == 7
    then "7"
    else if d == 8
    then "8"
    else "9"

-- The digits of a number, most significant first.
unfoldable pub digits_of : (n : ℕ) → Acc ◌<◌ n → String
unfolding digit dec_lt
digits_of n (Acc.intro _ smaller) =
    dite (dec_lt 9 n) (λ h. digits_of (n / 10) (smaller (n / 10) (omega arith)) <> digit (n % 10))
      (λ _. digit n)

unfoldable pub show : ℕ → String
unfolding digits_of lt_wf
show n = digits_of n (lt_wf.apply n)
