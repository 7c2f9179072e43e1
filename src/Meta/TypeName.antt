-- ===== src/Meta/TypeName.antt =====
-- model/meta/type.go: the types of attributes and methods, by their names.
use entix.Prelude.{String}

abbrev pub id : String
id = "ID"

abbrev pub int : String
int = "Int"

abbrev pub float : String
float = "Float"

abbrev pub boolean : String
boolean = "Boolean"

abbrev pub string : String
string = "String"

abbrev pub date : String
date = "Date"

abbrev pub enum : String
enum = "Enum"

abbrev pub json : String
json = "JSON"

abbrev pub value_object : String
value_object = "ValueObject"

abbrev pub entity : String
entity = "Entity"

abbrev pub id_array : String
id_array = "ID[]"

abbrev pub int_array : String
int_array = "Int[]"

abbrev pub float_array : String
float_array = "Float[]"

abbrev pub string_array : String
string_array = "String[]"

abbrev pub date_array : String
date_array = "Date[]"

abbrev pub enum_array : String
enum_array = "EnumArray"

abbrev pub value_object_array : String
value_object_array = "ValueObjectArray"

abbrev pub entity_array : String
entity_array = "EntityArray"

abbrev pub file : String
file = "File"

abbrev pub password : String
password = "Password"

abbrev pub uuid : String
uuid = "Uuid"
