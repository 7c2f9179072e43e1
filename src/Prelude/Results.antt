-- ===== src/Prelude/Results.antt =====
-- What a Go call comes to: a value, a returned `error`, or a panic.
use Prim.Native.String.{String}
use mathlib.Core.Bool.{Bool, true, false}
use mathlib.Core.Path.{◌≡◌, refl}
use entix.Prelude.Tests.{if◌then◌else◌}

pub data Outcome {κ} (V : Type κ) : Type κ where
  ok : V → Outcome V
  err panic : String → Outcome V

-- What follows a call, where it came to a value.
infixl 5 ◌>>=◌
abbrev pub ◌>>=◌ {κ η} : {V : Type κ} {W : Type η} → Outcome V → (V → Outcome W) → Outcome W
panic message >>= next = panic message
err message >>= next = err message
ok v >>= next = next v

-- `P` holds of the value, if there is one.
abbrev pub Ensures {ℓ κ} : {A : Type ℓ} → Outcome A → (A → Type κ) → Type κ
Ensures (ok a) P = P a
Ensures (err e) P = Unit
Ensures (panic e) P = Unit

pub Ensures->>= {ℓ κ η θ} :
    {A : Type ℓ} {B : Type κ} (P : A → Type η) (Q : B → Type θ) (m : Outcome A) (f : A → Outcome B)
    → Ensures m P
    → ((a : A) → P a → Ensures (f a) Q)
    → Ensures (m >>= f) Q
Ensures->>= P Q (ok a) f p h = h a p
Ensures->>= P Q (err e) f p h = tt
Ensures->>= P Q (panic e) f p h = tt

pub Ensures-if {ℓ κ} :
    {A : Type ℓ} (P : A → Type κ) (b : Bool) (x y : Outcome A)
    → Ensures x P
    → Ensures y P
    → Ensures (if b then x else y) P
Ensures-if P true x y p q = p
Ensures-if P false x y p q = q

-- Two continuations that agree where the call can come to give the same.
pub bind_ext {κ η θ} :
    {V : Type κ} {W : Type η} (P : V → Type θ) (o : Outcome V) (f g : V → Outcome W)
    → Ensures o P
    → ((v : V) → P v → f v ≡ g v)
    → (o >>= f) ≡ (o >>= g)
bind_ext P (ok v) f g h same = same v h
bind_ext P (err _) f g h same = refl
bind_ext P (panic _) f g h same = refl

pub Ensures-map {ℓ κ η} :
    {A : Type ℓ} (P : A → Type κ) (Q : A → Type η) (m : Outcome A)
    → Ensures m P
    → ((a : A) → P a → Q a)
    → Ensures m Q
Ensures-map P Q (ok a) h f = f a h
Ensures-map P Q (err e) h f = tt
Ensures-map P Q (panic e) h f = tt

pub Ensures-any {ℓ} : {A : Type ℓ} (m : Outcome A) → Ensures m (λ _. Unit {0})
Ensures-any (ok a) = tt
Ensures-any (err e) = tt
Ensures-any (panic e) = tt
