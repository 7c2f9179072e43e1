-- ===== src/Config/Fallback.antt =====
-- config/: the numbers of the environment.
use entix.Prelude.{◌≡◌, refl, String, false, inl, inr, Bool-cases, ok, str, ◌=?◌, if◌then◌else◌}
use entix.Config.{pos, Sources, is_zero, asserted_string, env_string, env_int, get_int, service_id}

-- A number of the environment that ParseInt accepts is never used: GetInt answers what the file says,
-- and so does ServiceId, or 1 where the file says 0.
pub service_id-File :
    (c : Sources) (key text own : String)
    → c.environment key ≡ str text
    → c.environment "service_id" ≡ str own
    → (c.parse_int text).failed ≡ false
    → (c.parse_int own).failed ≡ false
    → (get_int c key ≡ ok (c.file_int key))
      × (service_id c
          ≡ ok (if is_zero (c.file_int "service_id") then pos 1 else c.file_int "service_id"))
unfolding service_id get_int env_int env_string asserted_string
service_id-File c key text own e f p q = (number_of, own_number)
  where
    number_of : get_int c key ≡ ok (c.file_int key)
    number_of = elim (Bool-cases (text =? "")) [
      | inl k ↦ rw (e, k) refl
      | inr k ↦ rw (e, k, p) refl
    ]

    own_number :
        service_id c
        ≡ ok (if is_zero (c.file_int "service_id") then pos 1 else c.file_int "service_id")
    own_number = elim (Bool-cases (own =? "")) [
      | inl k ↦ rw (f, k) refl
      | inr k ↦ rw (f, k, q) refl
    ]
