-- ===== src/Mysql/ColumnType.antt =====
-- db/dialect/mysql/migration.go, base.go: the SQL type of a column.
use entix.Prelude.{
  ℕ, String, ◌<>◌, Bool, ◌&&◌, ◌||◌, List, [], ◌∷◌, show, ltb, leb, contains, ◌==◌, ◌=?◌,
  if◌then◌else◌,
}
use entix.Meta.TypeName
use entix.Table.{Column}

unfoldable pub nullable_string : Bool → String
nullable_string nullable = if nullable then " NULL " else " NOT NULL "

unfoldable pub unsigned_type : Column → String → String
unsigned_type c type = if c.unsigned then type <> " UNSIGNED" else type

unfoldable pub int_type : ℕ → String
int_type length =
    if length == 1
    then "tinyint"
    else if length == 2
    then "smallint"
    else if length == 3
    then "mediumint"
    else if length == 4
    then "int"
    else if ltb 4 length
    then "bigint(" <> (show (if ltb 64 length then 64 else length) <> ")")
    else "int"

-- `fmt.Sprint` writes the verbs as they stand, and a blank between two numbers.
unfoldable pub float_type : Column → String
float_type c =
    let type = if ltb 4 c.length then "double" else "float" in
    if ltb 0 c.float_m && ltb 0 c.float_d && leb c.float_d c.float_m
    then type <> ("(%d,%d)" <> (show c.float_m <> (" " <> show c.float_d)))
    else type

unfoldable pub string_type : ℕ → String
string_type length =
    if ltb 0 length
    then if leb length 255
      then "varchar(" <> (show length <> ")")
      else if leb length 65535
      then "text"
      else if leb length 16777215
      then "mediumtext"
      else "longtext"
    else "text"

abbrev json_types : List String
json_types =
    TypeName.json ∷ TypeName.value_object ∷ TypeName.id_array ∷ TypeName.int_array
    ∷ TypeName.float_array ∷ TypeName.string_array ∷ TypeName.date_array ∷ TypeName.enum_array
    ∷ TypeName.value_object_array ∷ TypeName.file ∷ []

unfoldable pub column_type_sql : Column → String
unfolding unsigned_type int_type float_type string_type
column_type_sql c =
    if c.type =? TypeName.id
    then "bigint(64)"
    else if c.type =? TypeName.int
    then unsigned_type c (int_type c.length)
    else if c.type =? TypeName.float
    then unsigned_type c (float_type c)
    else if c.type =? TypeName.boolean
    then "tinyint(1)"
    else if c.type =? TypeName.string || c.type =? TypeName.password || c.type =? TypeName.uuid
    then string_type c.length
    else if c.type =? TypeName.date
    then "datetime"
    else if c.type =? TypeName.enum
    then "tinytext"
    else if contains json_types c.type
    then "json"
    else "text"
