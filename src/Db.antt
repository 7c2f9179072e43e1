-- ===== src/Db.antt =====
-- db/dbx.go: a connection with at most one transaction, over what database/sql and the server keep.
-- A call takes their state and returns the state it leaves, with the way in which it ended. `Driver`
-- stands for the server: how it answers, from the statements that it has taken so far.
pub mod Works
pub mod Comes
use entix.Prelude.{
  ℕ, ◌+◌, ◌-◌, String, Bool, true, false, List, [], ◌∷◌, ◌++◌, Option, none, some, Outcome, ok, err,
  panic, Value, ◌=?◌, if◌then◌else◌, ◌&&◌, not, is_some,
}

pub record Statement : Type 0 where
  pub sql : String
  pub args : List Value

-- A transaction, `*sql.Tx`: whether it was committed or rolled back, and what was executed in it.
pub record Tx : Type 0 where
  pub done : Bool
  pub body : List Statement

-- `stored` is what the server keeps for good, `live` how many transactions it has open. `opened_db`
-- tells whether the variable `openedDB` is set; `db` and `tx` are the fields of `Dbx`, and `id_seed`
-- is that of `Session`.
pub record State : Type 0 where
  pub stored : List Statement
  pub live : ℕ
  pub opened_db : Bool
  pub db : Bool
  pub tx : Option Tx
  pub id_seed : ℕ

-- How a call ends: `exits` is `log.Fatalln`, after which no deferred call is made.
pub data Ending {κ} (V : Type κ) : Type κ where
  value : V → Ending V
  error panics exits : String → Ending V

abbrev pub M {κ} : Type κ → Type κ
M V = State → Ending V × State

unfoldable pub done_with {κ} : {V : Type κ} → V → M V
done_with v s = (value v, s)

unfoldable pub fails {κ} : {V : Type κ} → String → M V
fails message s = (error message, s)

unfoldable pub panic_with {κ} : {V : Type κ} → String → M V
panic_with message s = (panics message, s)

abbrev pub goes_on {κ η} :
    {V : Type κ} {W : Type η} → (V → M W) → Ending V × State → Ending W × State
goes_on next (value v, s) = next v s
goes_on next (error message, s) = (error message, s)
goes_on next (panics message, s) = (panics message, s)
goes_on next (exits message, s) = (exits message, s)

-- What follows a call where it came to a value; an error is returned.
infixl 5 ◌>>=◌ ◌>>◌
unfoldable pub ◌>>=◌ {κ η} : {V : Type κ} {W : Type η} → M V → (V → M W) → M W
◌>>=◌ m next s = goes_on next (m s)

unfoldable pub ◌>>◌ {κ η} : {V : Type κ} {W : Type η} → M V → M W → M W
unfolding ◌>>=◌
m >> next = m >>= λ _. next

unfoldable pub lift {κ} : {V : Type κ} → Outcome V → M V
unfolding done_with fails panic_with
lift (ok v) = done_with v
lift (err message) = fails message
lift (panic message) = panic_with message

-- `if err != nil { … }` in another way than returning it.
abbrev pub handles {κ} : {V : Type κ} → (String → M V) → Ending V × State → Ending V × State
handles handle (error message, s) = handle message s
handles handle (value v, s) = (value v, s)
handles handle (panics message, s) = (panics message, s)
handles handle (exits message, s) = (exits message, s)

unfoldable pub catch {κ} : {V : Type κ} → M V → (String → M V) → M V
catch m handle s = handles handle (m s)

-- `LastInsertId` of the result of a statement, or its error.
pub data Executed : Type 0 where
  refused : String → Executed
  accepted : Outcome ℕ → Executed

-- The answers are found from what is stored and what the transaction holds. A commit that is refused
-- may have reached the server all the same (`keeps`). A row is the list of its values, null for NULL.
pub record Driver : Type 0 where
  pub opens : Option String
  pub begins : List Statement → Option String
  pub executes : List Statement → Statement → Executed
  pub reads : List Statement → Statement → Outcome (List (List Value))
  pub commits : List Statement → Option String
  pub keeps : List Statement → Bool
  pub rolls_back : List Statement → Option String
  pub closes : Option String

abbrev pub tx_done : String
tx_done = "sql: transaction has already been committed or rolled back"

unfoldable pub validate_db : M (Unit {0})
validate_db s = if s.db then (value tt, s) else (panics "Not init connection with db", s)

-- `validateTx`, and the transaction that it found.
unfoldable pub validate_tx : M Tx
validate_tx s = elim s.tx [
  | none ↦ (panics "Not init connection with tx", s)
  | some t ↦ (value t, s)
]

abbrev pub finished : Option String → State → Ending (Unit {0}) × State
finished none s = (value tt, s)
finished (some message) s = (error message, s)

module _ (driver : Driver) where
  -- `Open`; the session's counter begins at 1 (`orm.Open`).
  unfoldable pub open_db : M (Unit {0})
  open_db s =
      if s.opened_db
      then (value tt, record s { db = true; tx = none; id_seed = 1 })
      else elim driver.opens [
        | none ↦ (value tt, record s { opened_db = true; db = true; tx = none; id_seed = 1 })
        | some message ↦ (error message, record s { db = false; tx = none; id_seed = 1 })
      ]

  unfoldable pub begin_tx : M (Unit {0})
  begin_tx s =
      if s.db
      then elim (driver.begins s.stored) [
        | none ↦ (
          value tt,
          record s { live = s.live + 1; tx = some (record { done = false; body = [] }) },
        )
        | some message ↦ (error message, s)
      ]
      else (panics "nil pointer dereference", s)

  -- `Close`
  unfoldable pub close : M (Unit {0})
  close s =
      if s.opened_db then finished driver.closes (record s { opened_db = false }) else (value tt, s)

  -- `tx.Commit()`: the transaction is over, also where the server refuses.
  unfoldable pub commit_tx : Tx → M (Unit {0})
  commit_tx t s =
      let all = s.stored ++ t.body in
      let over = record s { live = s.live - 1; tx = some (record t { done = true }) } in
      if t.done then (error tx_done, s) else elim (driver.commits all) [
        | none ↦ (value tt, record over { stored = all })
        | some message ↦
            (error message, if driver.keeps all then record over { stored = all } else over)
      ]

  unfoldable pub commit : M (Unit {0})
  unfolding validate_tx commit_tx ◌>>=◌
  commit = do t ← validate_tx; commit_tx t

  -- `tx.Rollback()`
  unfoldable pub rollback_tx : Tx → M (Unit {0})
  rollback_tx t s =
      if t.done
      then (error tx_done, s)
      else finished (driver.rolls_back (s.stored ++ t.body))
          (record s { live = s.live - 1; tx = some (record t { done = true }) })

  unfoldable pub rollback : M (Unit {0})
  unfolding validate_tx rollback_tx ◌>>=◌
  rollback = do t ← validate_tx; rollback_tx t

  -- `log.Fatalln` on any error but `sql.ErrTxDone`.
  unfoldable pub clear_error : String → M (Unit {0})
  clear_error message s = if message =? tx_done then (value tt, s) else (exits message, s)

  unfoldable pub clear_tx : M (Unit {0})
  unfolding validate_tx rollback clear_error ◌>>=◌ catch
  clear_tx = do t ← validate_tx; catch rollback clear_error

  -- In a transaction a statement is held until the commit; outside of any it is stored at once.
  unfoldable pub take : Option Tx → Statement → State → State
  take none q s = record s { stored = s.stored ++ q ∷ [] }
  take (some t) q s = record s { tx = some (record t { body = t.body ++ q ∷ [] }) }

  abbrev pub seen : Option Tx → State → List Statement
  seen none s = s.stored
  seen (some t) s = s.stored ++ t.body

  -- A transaction that is over takes no statement.
  abbrev pub is_over : Option Tx → Bool
  is_over none = false
  is_over (some t) = t.done

  abbrev pub executed : Executed → State → State → Ending (Outcome ℕ) × State
  executed (refused message) s s' = (error message, s)
  executed (accepted id) s s' = (value id, s')

  unfoldable pub exec : Statement → M (Outcome ℕ)
  unfolding validate_db take ◌>>=◌
  exec q = validate_db >>= λ _ s.
      if is_over s.tx
      then (error tx_done, s)
      else executed (driver.executes (seen s.tx s) q) s (take s.tx q s)

  unfoldable pub query : Statement → M (List (List Value))
  unfolding validate_db ◌>>=◌ lift
  query q = validate_db >>= λ _ s.
      if is_over s.tx then (error tx_done, s) else lift (driver.reads (seen s.tx s) q) s
