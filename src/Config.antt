-- ===== src/Config.antt =====
-- config/: a value of the environment, or else of the file. What viper finds is an argument, and so is
-- strconv.ParseInt, which gives a number with an error as well.
pub mod Fallback
use entix.Prelude.{
  ℕ, ◌==◌, String, ◌<>◌, Bool, true, false, not, List, [], ◌∷◌, Outcome, ok, panic, ◌>>=◌, Value,
  null, str, ◌=?◌, if◌then◌else◌,
}

-- Go's `int`.
pub data ℤ : Type 0 where
  pos negsuc : ℕ → ℤ

pub record Parsed : Type 0 where
  pub number : ℤ
  pub failed : Bool

abbrev pub is_zero : ℤ → Bool
is_zero (pos n) = n == 0
is_zero (negsuc n) = false

-- The file and the environment, with 32-bit numbers in any base for `parse_int`.
pub record Sources : Type 0 where
  pub environment : String → Value
  pub parse_int : String → Parsed
  pub file_string : String → String
  pub file_bool : String → Bool
  pub file_int : String → ℤ

module _ (c : Sources) where
  -- `EnvConfig`
  unfoldable pub asserted_string : Value → Outcome String
  asserted_string null = ok ""
  asserted_string (str s) = ok s
  asserted_string _ = panic "interface conversion"

  unfoldable pub env_string : String → Outcome String
  unfolding asserted_string
  env_string key = asserted_string (c.environment key)

  unfoldable pub env_bool : String → Bool
  env_bool key = elim (c.environment key) [ str s ↦ s =? "true" | _ ↦ false ]

  -- The number is given where there is an error.
  unfoldable pub env_int : String → Outcome ℤ
  unfolding env_string
  env_int key = do
    text ← env_string key
    if text =? ""
        then ok (pos 0)
        else (let i = c.parse_int text in ok (if i.failed then i.number else pos 0))

  -- `GetString`, `GetBool`, `GetInt`
  unfoldable pub get_string : String → Outcome String
  unfolding env_string
  get_string key = do text ← env_string key; ok (if text =? "" then c.file_string key else text)

  unfoldable pub get_bool : String → Bool
  unfolding env_bool
  get_bool key = if not (env_bool key) then c.file_bool key else env_bool key

  unfoldable pub get_int : String → Outcome ℤ
  unfolding env_int
  get_int key = do i ← env_int key; ok (if is_zero i then c.file_int key else i)

  unfoldable pub service_id : Outcome ℤ
  unfolding get_int
  service_id = do i ← get_int "service_id"; ok (if is_zero i then pos 1 else i)

pub record DbConfig : Type 0 where
  pub driver : String
  pub user : String
  pub password : String
  pub host : String
  pub port : String
  pub database : String

unfoldable pub get_db_config : Sources → Outcome DbConfig
unfolding get_string
get_db_config c = do
  driver ← get_string c "driver"
  database ← get_string c "database"
  host ← get_string c "host"
  port ← get_string c "port"
  user ← get_string c "user"
  password ← get_string c "password"
  ok (record {
    driver = if driver =? "" then "mysql" else driver;
    user = user;
    password = password;
    host = host;
    port = port;
    database = database;
  })

-- `DbString`
unfoldable pub db_string : DbConfig → String
db_string c =
    c.user
    <> (":"
        <> (c.password
            <> ("@tcp("
                <> (c.host <> (":" <> (c.port <> (")/" <> (c.database <> "?parseTime=true"))))))))
