-- ===== src/Service/Change/Transaction.antt =====
-- service/save.go, db/dbx.go: what becomes of a transaction under the deferred `ClearTx`.
use mathlib.Core.List.{append_assoc, append-nil}
use entix.Prelude.{
  ℕ, ◌-◌, ◌≡◌, refl, sym, ap, ◌∙◌, String, true, List, [], ◌++◌, Option, none, some, ◌⊎◌, inl, inr,
}
use entix.Db.{
  Statement, State, Ending, value, error, panics, exits, M, ◌>>=◌, goes_on, catch, handles,
}
use entix.Db.Works.{Works, inside, Leaves}
use entix.Orm.Session.{Context}
use entix.Service.Change.{give_up}

-- The state in which the transaction is rolled back.
abbrev pub over : State → List Statement → ℕ → State
over base body seed = record {
  stored = base.stored;
  live = base.live - 1;
  opened_db = base.opened_db;
  db = true;
  tx = some (record { done = true; body = body });
  id_seed = seed;
}

abbrev pub Stops : State → List Statement → State → Type 0
Stops base body s =
    (more : List Statement) × (seed : ℕ) × ((s ≡ inside base (body ++ more) seed)
      ⊎ (s ≡ over base (body ++ more) seed))

-- A call within a transaction: with a value it leaves the transaction open, otherwise it may also have
-- rolled it back.
abbrev pub Quits {κ} : {V : Type κ} → State → List Statement → Ending V × State → Type 0
Quits base body (value v, s) =
    (more : List Statement) × (seed : ℕ) × (s ≡ inside base (body ++ more) seed)
Quits base body (error m, s) = Stops base body s
Quits base body (panics m, s) = Stops base body s
Quits base body (exits m, s) = ⊥

pub record Tries {κ} {V : Type κ} (m : M V) : Type 0 where
  pub quits :
      (base : State) (body : List Statement) (seed : ℕ)
      → Quits base body (m (inside base body seed))

Quits-Leaves {κ} :
    {V : Type κ} (base : State) (body : List Statement) (p : Ending V × State)
    → Leaves base body p
    → Quits base body p
Quits-Leaves base body (value v, s) (more, seed, e, runs) = (more, seed, e)
Quits-Leaves base body (error m, s) (more, seed, e, runs) = (more, seed, inl e)
Quits-Leaves base body (panics m, s) (more, seed, e, runs) = (more, seed, inl e)
Quits-Leaves base body (exits m, s) (more, seed, e, runs) = runs

pub Tries-Works {κ} : {V : Type κ} {m : M V} → Works m → Tries m
Tries-Works {m} w = record {
  quits = λ base body seed.
      Quits-Leaves base body (m (inside base body seed)) (w.leaves base body seed);
}

Stops-next :
    (base : State) (body more : List Statement) (s : State)
    → Stops base (body ++ more) s
    → Stops base body s
Stops-next base body more s (again, seed, inl e) =
    (more ++ again, seed, inl (e ∙ ap (λ b. inside base b seed) (append_assoc body more again)))
Stops-next base body more s (again, seed, inr e) =
    (more ++ again, seed, inr (e ∙ ap (λ b. over base b seed) (append_assoc body more again)))

Quits-next {κ} :
    {V : Type κ} (base : State) (body more : List Statement) (p : Ending V × State)
    → Quits base (body ++ more) p
    → Quits base body p
Quits-next base body more (value v, s) (again, seed, e) =
    (more ++ again, seed, e ∙ ap (λ b. inside base b seed) (append_assoc body more again))
Quits-next base body more (error m, s) q = Stops-next base body more s q
Quits-next base body more (panics m, s) q = Stops-next base body more s q
Quits-next base body more (exits m, s) q = q

Quits-goes_on {κ η} :
    {V : Type κ} {W : Type η} (next : V → M W) (base : State) (body : List Statement)
    (p : Ending V × State)
    → Quits base body p
    → ((v : V) → Tries (next v))
    → Quits base body (goes_on next p)
Quits-goes_on next base body (value v, s) (more, seed, e) w =
    rw e (Quits-next base body more _ ((w v).quits base (body ++ more) seed))
Quits-goes_on next base body (error m, s) q w = q
Quits-goes_on next base body (panics m, s) q w = q
Quits-goes_on next base body (exits m, s) q w = q

pub Tries->>= {κ η} :
    {V : Type κ} {W : Type η} {m : M V} {next : V → M W}
    → Tries m
    → ((v : V) → Tries (next v))
    → Tries (m >>= next)
unfolding ◌>>=◌
Tries->>= {m} {next} wm w = record {
  quits = λ base body seed.
      Quits-goes_on next base body (m (inside base body seed)) (wm.quits base body seed) w;
}

Stops-over :
    (base : State) (body : List Statement) (seed : ℕ) → Stops base body (over base body seed)
Stops-over base body seed = ([], seed, inr (ap (λ b. over base b seed) (sym (append-nil body))))

module _ (x : Context) where
  Quits-give_up {κ} :
      (V : Type κ) (base : State) (body : List Statement) (seed : ℕ) (message : String)
      (answer : Option String)
      → x.driver.rolls_back (base.stored ++ body) ≡ answer
      → Quits {V = V} base body (give_up x message (inside base body seed))
  unfolding give_up
  Quits-give_up V base body seed message none e = rw e (Stops-over base body seed)
  Quits-give_up V base body seed message (some m) e = rw e (Stops-over base body seed)

  Quits-handles {κ} :
      {V : Type κ} (base : State) (body : List Statement) (p : Ending V × State)
      → Leaves base body p
      → Quits base body (handles (give_up x) p)
  Quits-handles {V} base body (error m, s) (more, seed, e, runs) =
      rw e (Quits-next base body more _ (Quits-give_up V base (body ++ more) seed m _ refl))
  Quits-handles base body (value v, s) (more, seed, e, runs) = (more, seed, e)
  Quits-handles base body (panics m, s) (more, seed, e, runs) = (more, seed, inl e)
  Quits-handles base body (exits m, s) (more, seed, e, runs) = runs

  pub Tries-give_up {κ} : {V : Type κ} {m : M V} → Works m → Tries (catch m (give_up x))
  unfolding catch
  Tries-give_up {m} w = record {
    quits = λ base body seed.
        Quits-handles base body (m (inside base body seed)) (w.leaves base body seed);
  }
