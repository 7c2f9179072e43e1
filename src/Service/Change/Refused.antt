-- ===== src/Service/Change/Refused.antt =====
-- service/save.go, service/delete.go: the server refuses to begin a transaction.
use entix.Prelude.{ℕ, ◌≡◌, refl, String, true, List, some}
use entix.Db.{State, error, panics, ◌>>◌, catch, open_db, begin_tx, clear_tx}
use entix.Data.{Instance}
use entix.Orm.Session.{Context}
use entix.Service.Change.{deferring, give_up, save, save_single, delete_instances, delete_single}

-- Where the database is open and the server refuses BeginTx, Save and SaveOne panic in the deferred
-- ClearTx, and DeleteInstances and DeleteInstance return the server's error. Nothing is stored.
pub changes-refused :
    (x : Context) (fuel : ℕ) (i : Instance) (is : List Instance) (s : State) (message : String)
    → s.opened_db ≡ true
    → x.driver.begins s.stored ≡ some message
    → ((save x fuel is s).0 ≡ panics "Not init connection with tx")
      × ((save_single x fuel i s).0 ≡ panics "Not init connection with tx")
      × ((delete_instances x fuel is s).0 ≡ error message)
      × ((delete_single x fuel i s).0 ≡ error message)
      × ((save x fuel is s).1.stored ≡ s.stored)
      × ((save_single x fuel i s).1.stored ≡ s.stored)
      × ((delete_instances x fuel is s).1.stored ≡ s.stored)
      × ((delete_single x fuel i s).1.stored ≡ s.stored)
unfolding save save_single delete_instances delete_single open_db begin_tx clear_tx ◌>>◌ deferring
    give_up catch
changes-refused x fuel i is s message h b = (
  rw (h, b) refl,
  rw (h, b) refl,
  rw (h, b) refl,
  rw (h, b) refl,
  rw (h, b) refl,
  rw (h, b) refl,
  rw (h, b) refl,
  rw (h, b) refl,
)
