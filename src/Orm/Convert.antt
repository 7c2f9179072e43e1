-- ===== src/Orm/Convert.antt =====
-- orm/convert.go, utils/json.go, db/nulluint64.go: values on their way to the database and back.
-- `marshal` stands for json.Marshal and `save_file` for the upload of a file and the text that
-- describes it.
pub mod Fits
pub mod Keeps
pub mod Panics
use entix.Prelude.{
  String, Bool, true, false, List, [], ◌∷◌, map, length, ◌==◌, Outcome, ok, err, panic, ◌>>=◌,
  Value, null, str, num, int, obj, Fields, end, put, contains, ◌=?◌, if◌then◌else◌,
}
use entix.Meta.{AttributeMeta}
use entix.Meta.TypeName
use entix.Data.{Field}

-- The types that `makeFieldValues` writes as JSON, and those that `convertOneColumnValue` reads so.
abbrev pub json_types : List String
json_types =
    TypeName.json ∷ TypeName.value_object ∷ TypeName.id_array ∷ TypeName.int_array
    ∷ TypeName.float_array ∷ TypeName.string_array ∷ TypeName.date_array ∷ TypeName.enum_array
    ∷ TypeName.value_object_array ∷ TypeName.entity_array ∷ []

module _ (marshal save_file : Value → Outcome Value) where
  unfoldable pub make_field_value : Field → Outcome Value
  make_field_value f =
      if contains json_types f.column.type
      then marshal f.value
      else if f.column.type =? TypeName.file
      then save_file f.value
      else ok f.value

  unfoldable pub make_field_values : List Field → Outcome (List Value)
  unfolding make_field_value
  make_field_values [] = ok []
  make_field_values (f ∷ fs) = do v ← make_field_value f; vs ← make_field_values fs; ok (v ∷ vs)

-- What a row is scanned into: the type of the variable, and its content, nil if the row has NULL.
pub data Target : Type 0 where
  null_uint64 null_int64 null_float64 null_bool null_time null_string json : Target

pub record Scanned : Type 0 where
  pub target : Target
  pub content : Value

-- `makeAttributeValue`
unfoldable pub target_of : AttributeMeta → Target
target_of a =
    if a.type =? TypeName.id
    then null_uint64
    else if a.type =? TypeName.int
    then null_int64
    else if a.type =? TypeName.float
    then null_float64
    else if a.type =? TypeName.boolean
    then null_bool
    else if a.type =? TypeName.date
    then null_time
    else if contains json_types a.type
    then json
    else if a.type =? TypeName.file
    then json
    else null_string

abbrev pub same_target : Target → Target → Bool
same_target null_uint64 null_uint64 = true
same_target null_int64 null_int64 = true
same_target null_float64 null_float64 = true
same_target null_bool null_bool = true
same_target null_time null_time = true
same_target null_string null_string = true
same_target json json = true
same_target _ _ = false

-- The assertion of the variable's type, and `Valid`.
unfoldable pub asserted : Target → Scanned → Outcome Value
asserted t s = if same_target s.target t then ok s.content else panic "interface conversion"

-- What reading uses of other packages: `Scan` of the Null types of database/sql, which gives nil for
-- NULL, json.Unmarshal into a map, and mapstructure.Decode.
pub record Reader : Type 0 where
  pub scan_null : Target → Value → Outcome Value
  pub unmarshal : String → Outcome Fields
  pub decode : Value → Outcome Value

-- `if err != nil { panic(err.Error()) }`
abbrev pub raised {κ} : {V : Type κ} → Outcome V → Outcome V
raised (err message) = panic message
raised o = o

-- `uint64(n.Int64)`
abbrev pub to_uint64 : Value → Value
to_uint64 (int n) = num n
to_uint64 v = v

module _ (reader : Reader) where
  -- `JSON.Scan`: only an object is a JSON that can be read; NULL leaves the map nil.
  unfoldable pub scan_json : Value → Outcome Value
  scan_json null = ok null
  scan_json (str text) = do m ← reader.unmarshal text; ok (obj m)
  scan_json _ = err "incompatible type for JSON"

  -- `Scan` of a variable; that of NullUint64 is through a NullInt64.
  unfoldable pub scan : Target → Value → Outcome Value
  unfolding scan_json
  scan json v = scan_json v
  scan null_uint64 v = do w ← reader.scan_null null_int64 v; ok (to_uint64 w)
  scan t v = reader.scan_null t v

  unfoldable pub scan_each : List Target → List Value → Outcome (List Value)
  unfolding scan
  scan_each (t ∷ ts) (v ∷ vs) = do w ← scan t v; ws ← scan_each ts vs; ok (w ∷ ws)
  scan_each _ _ = ok []

  -- `rows.Scan`, where an error is raised; the number of columns is looked at first.
  unfoldable pub scan_row : List Target → List Value → Outcome (List Value)
  unfolding scan_each
  scan_row targets row =
      if length row == length targets
      then raised (scan_each targets row)
      else panic "sql: expected another number of destination arguments in Scan"

  unfoldable pub convert_one_column_value : AttributeMeta → Scanned → Outcome Value
  unfolding asserted
  convert_one_column_value a s =
      if a.type =? TypeName.id
      then asserted null_uint64 s
      else if a.type =? TypeName.int
      then asserted null_int64 s
      else if a.type =? TypeName.float
      then asserted null_float64 s
      else if a.type =? TypeName.boolean
      then asserted null_bool s
      else if a.type =? TypeName.date
      then asserted null_time s
      else if contains json_types a.type
      then asserted json s
      else if a.type =? TypeName.file
      then raised (reader.decode s.content)
      else asserted null_string s

  -- `convertValuesToEntity`
  unfoldable pub convert_values : List AttributeMeta → List Value → Fields → Outcome Fields
  unfolding convert_one_column_value target_of put
  convert_values [] vs m = ok m
  convert_values (a ∷ as') (v ∷ vs) m = do
    w ← convert_one_column_value a (record { target = target_of a; content = v })
    convert_values as' vs (put a.name w m)
  convert_values (a ∷ as') [] m = panic "index out of range"

  -- `makeEntityQueryValues`, the scan of a row into its variables, and `convertValuesToEntity`.
  unfoldable pub convert_row : List AttributeMeta → List Value → Fields → Outcome Fields
  unfolding scan_row convert_values target_of
  convert_row attributes row m = do
    vs ← scan_row (map target_of attributes) row
    convert_values attributes vs m

  unfoldable pub convert_rows : List AttributeMeta → List (List Value) → Outcome (List Fields)
  unfolding convert_row
  convert_rows attributes [] = ok []
  convert_rows attributes (row ∷ rows) = do
    m ← convert_row attributes row end
    ms ← convert_rows attributes rows
    ok (m ∷ ms)
