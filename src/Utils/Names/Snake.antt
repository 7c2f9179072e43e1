-- ===== src/Utils/Names/Snake.antt =====
-- utils/string.go: what `SnakeString`, `FirstUpper` and `FirstLower` do to a name.
use Prim.Native.Char.{Char, code}
use native.Mathlib.Decide.{dec_le}
use text.Mathlib.TextEquality.{Char-path}
use text.Mathlib.TextLemmas.{nil-append, cons-append}
use entix.Prelude.{
  ltb, ◌-◌, not, ◌&&◌, ◌||◌, ◌<>◌, ◌+◌, String, Bool, true, false, ◌≡◌, refl, ap, ◌∙◌, sym, arith,
  ◌==◌, if◌then◌else◌, Bool-cases, inl, inr,
}
use entix.Utils.Names.{
  is_upper, is_lower, to_lower_char, to_upper_char, to_lower, first_upper, first_lower, snake_loop,
  snake_string,
}

snake_string_words : snake_string "ClassAuthConfig" ≡ "class_auth_config"
unfolding snake_string
snake_string_words = refl

first_upper_bytes : first_upper "éa" ≡ "��a"
unfolding first_upper dec_le
first_upper_bytes = refl

first_upper_word : first_upper "notification" ≡ "Notification"
unfolding first_upper dec_le
first_upper_word = refl

-- No capital is left.
abbrev pub IsLowered : String → Type 0
IsLowered String.[] = Unit
IsLowered (String.◌∷◌ c s) = (is_upper c ≡ false) × IsLowered s

is_upper-to_lower_char : (c : Char) → is_upper (to_lower_char c) ≡ false
unfolding to_lower_char
is_upper-to_lower_char c = ground arith

to_lower_char_of_not_upper : (c : Char) → is_upper c ≡ false → to_lower_char c ≡ c
unfolding to_lower_char
to_lower_char_of_not_upper c h = ground arith

to_lower-IsLowered : (s : String) → IsLowered (to_lower s)
unfolding to_lower
to_lower-IsLowered String.[] = tt
to_lower-IsLowered (String.◌∷◌ c s) = (is_upper-to_lower_char c, to_lower-IsLowered s)

to_lower_of_IsLowered : (s : String) → IsLowered s → to_lower s ≡ s
unfolding to_lower
to_lower_of_IsLowered String.[] h = refl
to_lower_of_IsLowered (String.◌∷◌ c s) (hc, hs) =
    cc (to_lower_char_of_not_upper c hc, to_lower_of_IsLowered s hs)

snake_loop_of_IsLowered : (later j : Bool) (s : String) → IsLowered s → snake_loop later j s ≡ s
unfolding snake_loop
snake_loop_of_IsLowered later j String.[] h = refl
snake_loop_of_IsLowered later j (String.◌∷◌ c s) (hc, hs) =
    ground (arith, snake_loop_of_IsLowered true true s hs, snake_loop_of_IsLowered true false s hs)

-- A name that was converted once is left as it is.
pub snake_string_idem : (s : String) → snake_string (snake_string s) ≡ snake_string s
unfolding snake_string
snake_string_idem s =
    let low = to_lower-IsLowered (snake_loop false false s) in
    rw (snake_loop_of_IsLowered false false _ low) (to_lower_of_IsLowered _ low)

-- Some character is no `_`.
pub has_word : String → Bool
has_word String.[] = false
has_word (String.◌∷◌ c s) = not (code c == b'_') || has_word s

-- The text of one character.
abbrev pub single : Char → String
single c = String.◌∷◌ c String.[]

-- What a character adds to the name before it.
abbrev pub added : Bool → Char → String
added marked c =
    if is_upper c && marked
    then String.◌∷◌ "_" (single (to_lower_char c))
    else single (to_lower_char c)

append-single :
    (later j : Bool) (c : Char)
    → (j ≡ true → later ≡ true)
    → to_lower (snake_loop later j (single c)) ≡ added j c
unfolding to_lower snake_loop to_lower_char
append-single later true c h =
    rw (h refl) (elim (Bool-cases (is_upper c)) [ inl e ↦ rw e refl | inr e ↦ rw e refl ])
append-single true false c h = elim (Bool-cases (is_upper c)) [
  | inl e ↦ rw e refl
  | inr e ↦ rw e refl
]
append-single false false c h = elim (Bool-cases (is_upper c)) [
  | inl e ↦ rw e refl
  | inr e ↦ rw e refl
]

behind_two :
    (c d : Char) (s t : String)
    → String.◌∷◌ c (String.◌∷◌ d (s <> t)) ≡ String.◌∷◌ c (String.◌∷◌ d s) <> t
behind_two c d s t =
    ap (String.◌∷◌ c) (sym (cons-append d s t)) ∙ sym (cons-append c (String.◌∷◌ d s) t)

snake_loop-unmarked :
    (later : Bool) (c : Char) (s : String)
    → snake_loop later false (String.◌∷◌ c s)
      ≡ String.◌∷◌ c (snake_loop true (not (code c == b'_')) s)
unfolding snake_loop
snake_loop-unmarked false c s = refl
snake_loop-unmarked true c s = elim (Bool-cases (is_upper c)) [
  | inl e ↦ rw e refl
  | inr e ↦ rw e refl
]

append-loop :
    (later j : Bool) (p : String) (c : Char)
    → (j ≡ true → later ≡ true)
    → to_lower (snake_loop later j (p <> single c))
      ≡ to_lower (snake_loop later j p) <> added (j || has_word p) c
unfolding to_lower snake_loop has_word to_lower_char
append-loop later true String.[] c h =
    rw (nil-append (single c), nil-append (added true c)) (append-single later true c h)
append-loop later false String.[] c h =
    rw (nil-append (single c), nil-append (added false c)) (append-single later false c h)
append-loop later true (String.◌∷◌ d p) c h =
    rw (h refl, cons-append d p (single c))
      (elim (Bool-cases (is_upper d)) [
        | inl e ↦ rw e (
            ap (λ t. String.◌∷◌ "_" (String.◌∷◌ (to_lower_char d) t))
              (append-loop true true p c (λ q. refl))
            ∙ behind_two "_" (to_lower_char d) _ (added true c))
        | inr e ↦ rw e (
            ap (String.◌∷◌ (to_lower_char d)) (append-loop true true p c (λ q. refl))
            ∙ sym (cons-append (to_lower_char d) _ (added true c)))
      ])
append-loop later false (String.◌∷◌ d p) c h =
    let marked : Bool = not (code d == b'_') in
    ap (λ t. to_lower (snake_loop later false t)) (cons-append d p (single c))
    ∙ ap to_lower (snake_loop-unmarked later d (p <> single c))
    ∙ ap (String.◌∷◌ (to_lower_char d)) (append-loop true marked p c (λ q. refl))
    ∙ sym (cons-append (to_lower_char d) _ (added (marked || has_word p) c))
    ∙ ap (λ t. to_lower t <> added (marked || has_word p) c) (sym (snake_loop-unmarked later d p))

-- A name that a character is added to is converted like the name before it, with the character lowered
-- behind it, and a `_` between them exactly if the character is a capital and some character before it
-- is no `_`; the empty name stays empty.
pub snake_string-append :
    (p : String) (c : Char)
    → (snake_string (p <> single c) ≡ snake_string p <> added (has_word p) c)
      × (snake_string String.[] ≡ String.[])
unfolding snake_string
snake_string-append p c = (append-loop false false p c (λ q. cc), refl)

code-to_upper_char :
    (c : Char) → code (to_upper_char c) ≡ (if is_lower c then code c - 32 else code c)
unfolding to_upper_char
code-to_upper_char c = ground arith

code-to_lower_char :
    (c : Char) → code (to_lower_char c) ≡ (if is_upper c then code c + 32 else code c)
unfolding to_lower_char
code-to_lower_char c = ground arith

lower-upper : (c : Char) → is_lower c ≡ true → to_lower_char (to_upper_char c) ≡ c
lower-upper c h =
    Char-path (to_lower_char (to_upper_char c)) c
      (ground (arith, code-to_upper_char c, code-to_lower_char (to_upper_char c), h))

ltb-to_upper_char : (c : Char) → ltb (code c) 128 ≡ true → ltb (code (to_upper_char c)) 128 ≡ true
ltb-to_upper_char c a = ground (arith, code-to_upper_char c, a)

-- FirstUpper makes a small first letter the capital that stands 32 codes before it and leaves any other
-- ASCII character that a name begins with as it is; what follows the first character stays. FirstLower
-- then brings a name that began with a small letter back.
pub first_upper-capital :
    (c : Char) (s : String)
    → ltb (code c) 128 ≡ true
    → ((d : Char) × (first_upper (String.◌∷◌ c s) ≡ String.◌∷◌ d s)
        × (code d ≡ (if is_lower c then code c - 32 else code c)))
      × (is_lower c ≡ true → first_lower (first_upper (String.◌∷◌ c s)) ≡ String.◌∷◌ c s)
unfolding first_lower first_upper
first_upper-capital c s a = (
  (to_upper_char c, rw a refl, code-to_upper_char c),
  λ h. rw (a, ltb-to_upper_char c a, lower-upper c h) refl,
)
