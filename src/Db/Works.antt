-- ===== src/Db/Works.antt =====
-- db/dbx.go: a call that works within a transaction. It executes statements in it, and leaves the
-- transaction open and all that is stored as it was.
use mathlib.Core.List.{append-nil, append_assoc}
use entix.Prelude.{
  ℕ, ◌≡◌, refl, sym, ap, ◌∙◌, String, Bool, true, false, List, [], ◌∷◌, ◌++◌, some, Outcome, ok,
  err, panic, if◌then◌else◌,
}
use entix.Db.{
  Statement, State, Ending, value, error, panics, exits, M, ◌>>=◌, goes_on, lift, Driver, Executed,
  refused, accepted, executed, exec, query, done_with, catch, handles, ◌>>◌, fails, panic_with,
}

-- A state with a transaction that is open and holds `body`.
abbrev pub inside : State → List Statement → ℕ → State
inside base body seed = record {
  stored = base.stored;
  live = base.live;
  opened_db = base.opened_db;
  db = true;
  tx = some (record { done = false; body = body });
  id_seed = seed;
}

-- The process goes on.
abbrev pub Runs {κ} : {V : Type κ} → Ending V → Type 0
Runs (exits message) = ⊥
Runs _ = Unit

abbrev pub Leaves {κ} : {V : Type κ} → State → List Statement → Ending V × State → Type 0
Leaves base body p =
    (more : List Statement) × (seed : ℕ) × (p.1 ≡ inside base (body ++ more) seed) × Runs p.0

pub record Works {κ} {V : Type κ} (m : M V) : Type 0 where
  pub leaves :
      (base : State) (body : List Statement) (seed : ℕ)
      → Leaves base body (m (inside base body seed))

pub Leaves-same {κ} :
    {V : Type κ} (base : State) (body : List Statement) (seed : ℕ) (r : Ending V)
    → Runs r
    → Leaves base body (r, inside base body seed)
Leaves-same base body seed r runs =
    ([], seed, ap (λ b. inside base b seed) (sym (append-nil body)), runs)

Leaves-next {κ} :
    {V : Type κ} (base : State) (body more : List Statement) (p : Ending V × State)
    → Leaves base (body ++ more) p
    → Leaves base body p
Leaves-next base body more p (again, seed, e, runs) =
    (more ++ again, seed, e ∙ ap (λ b. inside base b seed) (append_assoc body more again), runs)

Leaves-goes_on {κ η} :
    {V : Type κ} {W : Type η} (next : V → M W) (base : State) (body : List Statement)
    (p : Ending V × State)
    → Leaves base body p
    → ((v : V) → Works (next v))
    → Leaves base body (goes_on next p)
Leaves-goes_on next base body (value v, s) (more, seed, e, runs) w =
    rw e (Leaves-next base body more _ ((w v).leaves base (body ++ more) seed))
Leaves-goes_on next base body (error m, s) (more, seed, e, runs) w = (more, seed, e, tt)
Leaves-goes_on next base body (panics m, s) (more, seed, e, runs) w = (more, seed, e, tt)
Leaves-goes_on next base body (exits m, s) (more, seed, e, runs) w = absurd runs

pub Works->>= {κ η} :
    {V : Type κ} {W : Type η} {m : M V} {next : V → M W}
    → Works m
    → ((v : V) → Works (next v))
    → Works (m >>= next)
unfolding ◌>>=◌
Works->>= {m} {next} wm w = record {
  leaves = λ base body seed.
      Leaves-goes_on next base body (m (inside base body seed)) (wm.leaves base body seed) w;
}

pub Works->> {κ η} :
    {V : Type κ} {W : Type η} {m : M V} {n : M W} → Works m → Works n → Works (m >> n)
unfolding ◌>>◌
Works->> wm wn = Works->>= wm (λ _. wn)

pub Works-done_with {κ} : {V : Type κ} (v : V) → Works (done_with v)
unfolding done_with
Works-done_with v = record { leaves = λ base body seed. Leaves-same base body seed (value v) tt }

pub Works-panic_with {κ} : {V : Type κ} (message : String) → Works {V = V} (panic_with message)
unfolding panic_with
Works-panic_with {V} message = record {
  leaves = λ base body seed. Leaves-same {V = V} base body seed (panics message) tt;
}

pub Works-fails {κ} : {V : Type κ} (message : String) → Works {V = V} (fails message)
unfolding fails
Works-fails {V} message = record {
  leaves = λ base body seed. Leaves-same {V = V} base body seed (error message) tt;
}

pub Works-lift {κ} : {V : Type κ} (o : Outcome V) → Works (lift o)
unfolding lift
Works-lift (ok v) = Works-done_with v
Works-lift (err m) = Works-fails m
Works-lift (panic m) = Works-panic_with m

pub Works-if {κ} :
    {V : Type κ} (b : Bool) {m n : M V} → Works m → Works n → Works (if b then m else n)
Works-if true w v = w
Works-if false w v = v

Leaves-handles {κ} :
    {V : Type κ} (base : State) (body : List Statement) (handle : String → M V)
    (p : Ending V × State)
    → Leaves base body p
    → ((message : String) → Works (handle message))
    → Leaves base body (handles handle p)
Leaves-handles base body handle (error m, s) (more, seed, e, runs) w =
    rw e (Leaves-next base body more _ ((w m).leaves base (body ++ more) seed))
Leaves-handles base body handle (value v, s) l w = l
Leaves-handles base body handle (panics m, s) l w = l
Leaves-handles base body handle (exits m, s) l w = l

pub Works-catch {κ} :
    {V : Type κ} {m : M V} {handle : String → M V}
    → Works m
    → ((message : String) → Works (handle message))
    → Works (catch m handle)
unfolding catch
Works-catch {m} {handle} wm w = record {
  leaves = λ base body seed.
      Leaves-handles base body handle (m (inside base body seed)) (wm.leaves base body seed) w;
}

module _ (driver : Driver) where
  Leaves-executed :
      (x : Executed) (base : State) (body : List Statement) (seed : ℕ) (q : Statement)
      → Leaves base body
          (executed driver x (inside base body seed) (inside base (body ++ q ∷ []) seed))
  Leaves-executed (refused m) base body seed q =
      Leaves-same {V = Outcome ℕ} base body seed (error m) tt
  Leaves-executed (accepted id) base body seed q = (q ∷ [], seed, refl, tt)

  pub Works-exec : (q : Statement) → Works (exec driver q)
  unfolding exec
  Works-exec q = record {
    leaves = λ base body seed.
        Leaves-executed (driver.executes (base.stored ++ body) q) base body seed q;
  }

  pub Works-query : (q : Statement) → Works (query driver q)
  unfolding query
  Works-query q = record {
    leaves =
        λ base body seed. (Works-lift (driver.reads (base.stored ++ body) q)).leaves base body seed;
  }
