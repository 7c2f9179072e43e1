-- ===== src/Service/Change/Atomic/Calls.antt =====
-- service/save.go, service/delete.go: each of the calls is atomic.
use entix.Prelude.{
  ℕ, ◌≡◌, refl, String, true, false, List, [], ◌∷◌, Option, none, ◌⊎◌, inl, inr, Option-cases,
  Bool-cases, arith, num, Value, Fields,
}
use entix.Db.{State, value, error, M, ◌>>=◌, ◌>>◌, done_with, open_db, begin_tx, clear_tx, catch}
use entix.Db.Works.{inside, Works, Works->>=, Works->>, Works-done_with}
use entix.Data.{Instance, entity_of, map_of}
use entix.Orm.Session.{Context, query_one_by_id}
use entix.Orm.Session.Within.{Works-query_by_ids, Works-query_one_by_id}
use entix.Orm.Save.{save_one}
use entix.Orm.Save.Within.{Works-save_one}
use entix.Orm.Delete.{delete_instance}
use entix.Orm.Delete.Within.{Works-delete_instance}
use entix.Service.Change.{
  deferring, give_up, committing, save_each, delete_each, saved_rows, save, save_single,
  delete_instances, delete_single,
}
use entix.Service.Change.Transaction.{Tries, Tries-Works, Tries->>=, Tries-give_up}
use entix.Service.Change.Atomic.{Lost, Atomic, begun, Atomic-committing}

-- The state behind `Open`.
abbrev pub opened : State → State
opened s = record {
  stored = s.stored;
  live = s.live;
  opened_db = true;
  db = true;
  tx = none;
  id_seed = 1;
}

module _ (x : Context) where
  pub open_db-cases :
      (s : State)
      → (open_db x.driver s ≡ (value tt, opened s))
        ⊎ ((e : String) × (t : State) × (open_db x.driver s ≡ (error e, t)) × Lost s t)
  unfolding open_db
  open_db-cases s = elim (Bool-cases s.opened_db) [
    | inl e ↦ inl (rw e refl)
    | inr e ↦ elim (Option-cases x.driver.opens) [
      | inl k ↦ inl (rw (e, k) refl)
      | inr (m, k) ↦
          inr (m, record s { db = false; tx = none; id_seed = 1 }, ground arith, (refl, refl))
    ]
  ]

  pub begin_tx-cases :
      (s : State)
      → (begin_tx x.driver (opened s) ≡ (value tt, inside (begun s) [] 1))
        ⊎ ((e : String) × (begin_tx x.driver (opened s) ≡ (error e, opened s)))
  unfolding begin_tx
  begin_tx-cases s = elim (Option-cases (x.driver.begins s.stored)) [
    | inl k ↦ inl (rw k refl)
    | inr (m, k) ↦ inr (m, rw k refl)
  ]

  module _ {V : Type 0} (m : M V) (w : Tries m) (s : State) where
    -- The three ways in which the calls begin and defer.
    Atomic-save : Atomic x m s (
        (open_db x.driver
            >> deferring
                (clear_tx x.driver)
                (catch (begin_tx x.driver) (give_up x) >> committing x m))
          s)
    unfolding ◌>>◌ deferring catch give_up clear_tx
    Atomic-save = elim (open_db-cases s) [
      | inr (e, t, o, lost) ↦ rw o (inl lost)
      | inl o ↦ elim (begin_tx-cases s) [
        | inl b ↦ rw (o, b) (unfold deferring in Atomic-committing x m s w)
        | inr (e, b) ↦ rw (o, b) (refl, refl)
      ]
    ]

    Atomic-save_single : Atomic x m s (
        (open_db x.driver >> deferring (clear_tx x.driver) (begin_tx x.driver >> committing x m)) s)
    unfolding ◌>>◌ deferring clear_tx
    Atomic-save_single = elim (open_db-cases s) [
      | inr (e, t, o, lost) ↦ rw o (inl lost)
      | inl o ↦ elim (begin_tx-cases s) [
        | inl b ↦ rw (o, b) (unfold deferring in Atomic-committing x m s w)
        | inr (e, b) ↦ rw (o, b) (refl, refl)
      ]
    ]

    Atomic-delete : Atomic x m s (
        (open_db x.driver >> begin_tx x.driver >> deferring (clear_tx x.driver) (committing x m)) s)
    unfolding ◌>>◌
    Atomic-delete = elim (open_db-cases s) [
      | inr (e, t, o, lost) ↦ rw o (inl lost)
      | inl o ↦ elim (begin_tx-cases s) [
        | inl b ↦ rw (o, b) (Atomic-committing x m s w)
        | inr (e, b) ↦ rw (o, b) (inl (refl, refl))
      ]
    ]

  Tries-save_each : (fuel : ℕ) (is : List Instance) → Tries (save_each x fuel is)
  unfolding save_each
  Tries-save_each fuel [] = Tries-Works (Works-done_with [])
  Tries-save_each fuel (i ∷ is) = Tries->>= (Tries-give_up x (Works-save_one x fuel i)) (λ id.
      Tries->>= (Tries-save_each fuel is) (λ ids. Tries-Works (Works-done_with (num id ∷ ids))))

  Works-saved_rows : (is : List Instance) (ids : List Value) → Works (saved_rows x is ids)
  unfolding saved_rows
  Works-saved_rows [] ids = Works-done_with []
  Works-saved_rows (i ∷ is) ids = Works-query_by_ids x (entity_of i) ids

  Works-delete_each : (fuel : ℕ) (is : List Instance) → Works (delete_each x fuel is)
  unfolding delete_each
  Works-delete_each fuel [] = Works-done_with []
  Works-delete_each fuel (i ∷ is) =
      Works->> (Works-delete_instance x fuel i)
        (Works->>= (Works-delete_each fuel is) (λ ids. Works-done_with _))

  -- What `Save`, `SaveOne`, `DeleteInstances` and `DeleteInstance` do between begin and commit.
  abbrev pub saves : ℕ → List Instance → M (List Fields)
  saves fuel is = save_each x fuel is >>= saved_rows x is

  abbrev pub saves_one : ℕ → Instance → M (Option Fields)
  saves_one fuel i =
      catch (save_one x fuel i) (give_up x) >>= λ id. query_one_by_id x (entity_of i) (num id)

  abbrev pub deletes_one : ℕ → Instance → M Fields
  deletes_one fuel i = delete_instance x fuel i >>= λ _. done_with (map_of i)

  -- Whatever the database answers and however far a call gets, Save, SaveOne, DeleteInstances and
  -- DeleteInstance leave no transaction open; with a value, all the statements that the call executed
  -- are stored, in their order, and with a panic none is. With an error none is either, unless that
  -- is the server's refusal of the commit: then statements may be stored.
  pub changes-Atomic :
      (fuel : ℕ) (i : Instance) (is : List Instance) (s : State)
      → Atomic x (saves fuel is) s (save x fuel is s)
        × Atomic x (saves_one fuel i) s (save_single x fuel i s)
        × Atomic x (delete_each x fuel is) s (delete_instances x fuel is s)
        × Atomic x (deletes_one fuel i) s (delete_single x fuel i s)
  unfolding save save_single delete_instances delete_single
  changes-Atomic fuel i is s = (
    Atomic-save (saves fuel is)
        (Tries->>= (Tries-save_each fuel is) (λ ids. Tries-Works (Works-saved_rows is ids))) s,
    Atomic-save_single (saves_one fuel i)
        (Tries->>= (Tries-give_up x (Works-save_one x fuel i))
          (λ id. Tries-Works (Works-query_one_by_id x (entity_of i) (num id))))
        s,
    Atomic-delete (delete_each x fuel is) (Tries-Works (Works-delete_each fuel is)) s,
    Atomic-delete (deletes_one fuel i)
        (Tries-Works (Works->>= (Works-delete_instance x fuel i) (λ _. Works-done_with (map_of i))))
        s,
  )
