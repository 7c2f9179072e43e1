-- ===== src/Tests/Settings.antt =====
-- The theorem on the configuration, at a sample.
use entix.Prelude.{◌≡◌, refl, false, ok, str}
use entix.Config.{Sources, pos, get_int, service_id}
use entix.Config.Fallback.{service_id-File}

-- The environment says 7, the file 3.
abbrev sources : Sources
sources = record {
  environment = λ key. str "7";
  parse_int = λ text. record { number = pos 7; failed = false };
  file_string = λ key. "";
  file_bool = λ key. false;
  file_int = λ key. pos 3;
}

service_id-File_example : (get_int sources "port" ≡ ok (pos 3)) × (service_id sources ≡ ok (pos 3))
service_id-File_example = service_id-File sources "port" "7" "7" refl refl refl refl
