-- ===== src/Db/Comes.antt =====
-- db/dbx.go: what a call can come to, whatever the state.
use mathlib.Core.Path.{fun_ext}
use entix.Prelude.{◌≡◌, refl, ap, Outcome, ok, err, panic, Ensures}
use entix.Db.{
  M, State, Ending, value, error, panics, exits, ◌>>=◌, goes_on, done_with, lift, fails, panic_with,
}

-- A property of the value, if there is one.
abbrev pub OnValue : {V : Type 0} → Ending V → (V → Type 0) → Type 0
OnValue (value v) P = P v
OnValue (error m) P = Unit
OnValue (panics m) P = Unit
OnValue (exits m) P = Unit

-- What a call comes to has the property.
pub record Comes {V : Type 0} (m : M V) (P : V → Type 0) : Type 0 where
  pub comes : (s : State) → OnValue (m s).0 P

pub OnValue-goes_on :
    {V W : Type 0} (next : V → M W) (Q : W → Type 0) (p : Ending V × State)
    → ((v : V) → Comes (next v) Q)
    → OnValue (goes_on next p).0 Q
OnValue-goes_on next Q (value v, s) h = (h v).comes s
OnValue-goes_on next Q (error m, s) h = tt
OnValue-goes_on next Q (panics m, s) h = tt
OnValue-goes_on next Q (exits m, s) h = tt

pub Comes->>= :
    {V W : Type 0} (m : M V) {next : V → M W} {Q : W → Type 0}
    → ((v : V) → Comes (next v) Q)
    → Comes (m >>= next) Q
unfolding ◌>>=◌
Comes->>= m {next} {Q} h = record { comes = λ s. OnValue-goes_on next Q (m s) h }

pub Comes-lift_ok :
    {V W : Type 0} {v : V} (next : V → M W) {Q : W → Type 0}
    → Comes (next v) Q
    → Comes (lift (ok v) >>= next) Q
unfolding ◌>>=◌ lift done_with
Comes-lift_ok next h = record { comes = λ s. h.comes s }

pub OnValue-lift :
    {V : Type 0} (o : Outcome V) (Q : V → Type 0) (s : State) → Ensures o Q → OnValue (lift o s).0 Q
unfolding lift done_with fails panic_with
OnValue-lift (ok v) Q s h = h
OnValue-lift (err m) Q s h = tt
OnValue-lift (panic m) Q s h = tt

pub Comes-lift : {V : Type 0} (o : Outcome V) (Q : V → Type 0) → Ensures o Q → Comes (lift o) Q
Comes-lift o Q h = record { comes = λ s. OnValue-lift o Q s h }

pub Ensures-self : {V : Type 0} (o : Outcome V) → Ensures o (λ v. o ≡ ok v)
Ensures-self (ok v) = refl
Ensures-self (err m) = tt
Ensures-self (panic m) = tt

pub goes_on_cong :
    {V W : Type 0} (P : V → Type 0) (f g : V → M W) (p : Ending V × State)
    → OnValue p.0 P
    → ((v : V) → P v → f v ≡ g v)
    → goes_on f p ≡ goes_on g p
goes_on_cong P f g (value v, t) h same = ap (λ k. k t) (same v h)
goes_on_cong P f g (error e, t) h same = refl
goes_on_cong P f g (panics e, t) h same = refl
goes_on_cong P f g (exits e, t) h same = refl

-- Two continuations that agree on what the call can come to.
pub bind_cong :
    {V W : Type 0} {m : M V} {P : V → Type 0} {f g : V → M W}
    → Comes m P
    → ((v : V) → P v → f v ≡ g v)
    → (m >>= f) ≡ (m >>= g)
unfolding ◌>>=◌
bind_cong {m} {P} {f} {g} on same = fun_ext (λ s. goes_on_cong P f g (m s) (on.comes s) same)
