-- ===== src/Utils/Names.antt =====
-- utils/string.go: the case of a name. The program walks bytes; a text is walked by its characters
-- here, which comes to the same, as no byte of a longer character is a letter or a `_`. A text is what
-- a `range` over it reads: a byte that is no character is U+FFFD. Letters are the ASCII ones: what
-- `strings.ToLower` does to others is left out.
pub mod Snake
use Prim.Native.Nat.{compare, Ordering}
use Prim.Native.Char.{Char, char, code, IsScalar}
use native.Mathlib.Decide.{dec_le}
use entix.Prelude.{
  ℕ, ◌+◌, ◌-◌, ◌≤◌, ◌<◌, ◌≡◌, Bool, true, false, not, ◌&&◌, ◌||◌, String, ◌<>◌, leb, ltb, zero, suc,
  ◌==◌, if◌then◌else◌, arith,
}

abbrev pub is_upper : Char → Bool
is_upper c = leb b'A' (code c) && leb (code c) b'Z'

abbrev pub is_lower : Char → Bool
is_lower c = leb b'a' (code c) && leb (code c) b'z'

compare-lt : (n k : ℕ) → n < k → compare n k ≡ Ordering.lt
compare-lt n k h = ground arith

IsScalar_ascii : (n : ℕ) → n < 55296 → IsScalar n
IsScalar_ascii n h = rw (compare-lt n 55296 h) tt

unfoldable pub to_lower_char : Char → Char
unfolding IsScalar_ascii compare-lt dec_le
to_lower_char c = elim (dec_le b'A' (code c)) [
  | yes above ↦ elim (dec_le (code c) b'Z') [
    | yes below ↦ char (code c + 32) (IsScalar_ascii (code c + 32) (omega arith))
    | no beyond ↦ c
  ]
  | no below ↦ c
]

unfoldable pub to_upper_char : Char → Char
unfolding IsScalar_ascii compare-lt dec_le
to_upper_char c = elim (dec_le b'a' (code c)) [
  | yes above ↦ elim (dec_le (code c) b'z') [
    | yes below ↦ char (code c - 32) (IsScalar_ascii (code c - 32) (omega arith))
    | no beyond ↦ c
  ]
  | no below ↦ c
]

-- `strings.ToLower`
unfoldable pub to_lower : String → String
to_lower String.[] = String.[]
to_lower (String.◌∷◌ c s) = String.◌∷◌ (to_lower_char c) (to_lower s)

-- The bytes of a character in UTF-8.
abbrev pub width : Char → ℕ
width c =
    if ltb (code c) 128
    then 1
    else if ltb (code c) 2048
    then 2
    else if ltb (code c) 65536
    then 3
    else 4

unfoldable pub replaced : ℕ → String → String
replaced zero s = s
replaced (suc n) s = String.◌∷◌ "�" (replaced n s)

-- `f(s[:1]) + s[1:]`: of a longer character the first byte alone is mapped, to U+FFFD, and its other
-- bytes are left over.
abbrev pub first_byte : (Char → Char) → Char → String → String
unfolding replaced
first_byte f c s = if ltb (code c) 128 then String.◌∷◌ (f c) s else replaced (width c) s

unfoldable pub first_upper : String → String
unfolding to_upper_char first_byte
first_upper String.[] = String.[]
first_upper (String.◌∷◌ c s) = first_byte to_upper_char c s

unfoldable pub first_lower : String → String
unfolding to_lower_char first_byte
first_lower String.[] = String.[]
first_lower (String.◌∷◌ c s) = first_byte to_lower_char c s

-- The loop of `SnakeString`: `later` is `i > 0`, `j` is set once a character was no `_`.
unfoldable pub snake_loop : Bool → Bool → String → String
snake_loop later j String.[] = String.[]
snake_loop later j (String.◌∷◌ c s) =
    let rest = snake_loop true (j || not (code c == b'_')) s in
    if later && is_upper c && j then String.◌∷◌ "_" (String.◌∷◌ c rest) else String.◌∷◌ c rest

unfoldable pub snake_string : String → String
unfolding to_lower to_lower_char snake_loop
snake_string s = to_lower (snake_loop false false s)
