-- ===== src/Service/Change/Atomic.antt =====
-- service/save.go, service/delete.go: a call stores all that it executed, or nothing.
pub mod Calls
use entix.Prelude.{
  ℕ, ◌+◌, ◌-◌, ◌≡◌, refl, sym, ap, ◌∙◌, String, Bool, true, false, List, [], ◌∷◌, ◌++◌, Option,
  none, some, ◌⊎◌, inl, inr, Option-cases, Bool-cases, ◌=?◌, if◌then◌else◌, arith,
}
use entix.Db.{
  Statement, State, Ending, value, error, panics, exits, M, ◌>>=◌, ◌>>◌, goes_on, done_with, Driver,
  open_db, begin_tx, commit, clear_tx, tx_done,
}
use entix.Db.Works.{inside}
use entix.Orm.Session.{Context}
use entix.Service.Change.{concluding, ending, deferring, give_up, committing}
use entix.Service.Change.Transaction.{Tries, Quits, Stops, over}

-- A transaction is begun.
abbrev pub begun : State → State
begun s = record s { live = s.live + 1; opened_db = true }

abbrev pub Lost : State → State → Type 0
Lost s t = (t.stored ≡ s.stored) × (t.live ≡ s.live)

module _ (x : Context) where
  -- What a call leaves behind that runs `m` in a transaction begun from `s`, all or nothing: with a
  -- value, that of `m`, all that `m` executed is stored; with an error, nothing is, unless the server
  -- refused the commit with that error, and then some statements may be; otherwise nothing is. No
  -- transaction stays open.
  abbrev pub Atomic : {V : Type 0} → M V → State → Ending V × State → Type 0
  Atomic m s (value v, t) =
      (more : List Statement) × (seed : ℕ) × (m (inside (begun s) [] 1)
        ≡ (value v, inside (begun s) more seed))
      × (t.stored ≡ s.stored ++ more)
      × (t.live ≡ s.live)
  Atomic m s (error e, t) =
      Lost s t
      ⊎ ((more : List Statement) × (x.driver.commits (s.stored ++ more) ≡ some e)
          × (t.stored ≡ s.stored ++ more)
          × (t.live ≡ s.live))
  Atomic m s (panics e, t) = Lost s t
  Atomic m s (exits e, t) = Lost s t

  module _ {V : Type 0} (m : M V) (s : State) where
    Atomic-committed :
        (v : V) (more : List Statement) (seed : ℕ) (answer : Option String)
        → m (inside (begun s) [] 1) ≡ (value v, inside (begun s) more seed)
        → x.driver.commits (s.stored ++ more) ≡ answer
        → Atomic m s (
            ending
              (clear_tx x.driver)
              (goes_on (λ v. commit x.driver >> done_with v) (value v, inside (begun s) more seed)))
    unfolding clear_tx commit ◌>>◌ done_with
    Atomic-committed v more seed none run e = rw e (more, seed, run, refl, omega arith)
    Atomic-committed v more seed (some message) run e =
        elim (Bool-cases (x.driver.keeps (s.stored ++ more))) [
          | inl k ↦ rw (e, k) (inr (more, e, refl, omega arith))
          | inr k ↦ rw (e, k) (inl (refl, omega arith))
        ]

    -- `ClearTx` where the call has not committed.
    Lost-clear_tx :
        (r : Ending V) (answer : Option String) (more : List Statement) (seed : ℕ)
        → x.driver.rolls_back (s.stored ++ more) ≡ answer
        → Lost s (concluding r (clear_tx x.driver (inside (begun s) more seed))).1
    unfolding clear_tx
    Lost-clear_tx r none more seed e = rw e (refl, omega arith)
    Lost-clear_tx r (some message) more seed e = elim (Bool-cases (message =? tx_done)) [
      | inl k ↦ rw (e, k) (refl, omega arith)
      | inr k ↦ rw (e, k) (refl, omega arith)
    ]

    Lost-Stops :
        (r : Ending V) (t : State)
        → Stops (begun s) [] t
        → Lost s (concluding r (clear_tx x.driver t)).1
    unfolding clear_tx
    Lost-Stops r t (more, seed, inl e) = rw e (Lost-clear_tx r _ more seed refl)
    Lost-Stops r t (more, seed, inr e) = rw e (refl, omega arith)

    abbrev Fails : Ending V → Type 0
    Fails (value v) = ⊥
    Fails _ = Unit

    Fails-concluding :
        (r : Ending V) (q : Ending (Unit {0}) × State) → Fails r → Fails (concluding r q).0
    Fails-concluding r (value _, t) h = h
    Fails-concluding r (error _, t) h = h
    Fails-concluding r (panics _, t) h = tt
    Fails-concluding r (exits _, t) h = tt

    pub Atomic-Lost : (p : Ending V × State) → Fails p.0 → Lost s p.1 → Atomic m s p
    Atomic-Lost (value v, t) h lost = absurd h
    Atomic-Lost (error e, t) h lost = inl lost
    Atomic-Lost (panics e, t) h lost = lost
    Atomic-Lost (exits e, t) h lost = lost

    Atomic-ending :
        (p : Ending V × State)
        → m (inside (begun s) [] 1) ≡ p
        → Quits (begun s) [] p
        → Atomic m s (ending (clear_tx x.driver) (goes_on (λ v. commit x.driver >> done_with v) p))
    Atomic-ending (value v, t) run (more, seed, e) =
        rw e (Atomic-committed v more seed _ (run ∙ ap (λ u. (value v, u)) e) refl)
    Atomic-ending (error e, t) run stops =
        Atomic-Lost (concluding (error e) (clear_tx x.driver t))
          (Fails-concluding (error e) (clear_tx x.driver t) tt) (Lost-Stops (error e) t stops)
    Atomic-ending (panics e, t) run stops =
        Atomic-Lost (concluding (panics e) (clear_tx x.driver t))
          (Fails-concluding (panics e) (clear_tx x.driver t) tt) (Lost-Stops (panics e) t stops)
    Atomic-ending (exits e, t) run h = absurd h

    pub Atomic-committing :
        Tries m
        → Atomic m s (deferring (clear_tx x.driver) (committing x m) (inside (begun s) [] 1))
    unfolding deferring committing
    Atomic-committing w = Atomic-ending (m (inside (begun s) [] 1)) refl (w.quits (begun s) [] 1)
