-- ===== src/Schema/Property.antt =====
-- modules/app/schema/parser/property.go, orderby.go: the types of attributes.
use entix.Prelude.{
  String, ◌<>◌, ◌||◌, List, [], ◌∷◌, Option, none, some, Outcome, ok, panic, ◌>>=◌, find_first,
  contains, ◌=?◌, if◌then◌else◌,
}
use entix.Meta.{AttributeMeta}
use entix.Meta.TypeName
use entix.Domain
use entix.Schema.{
  GraphType, int, float, boolean, string, id, date_time, json, upload, file, InputObject, EnumType,
  Map,
}
use entix.Schema.Comparison.{
  Made, boolean_comparison_exp, date_time_comparison_exp, float_comparison_exp, int_comparison_exp,
  id_comparison_exp, string_comparison_exp, enum_comparison_exp,
}

-- The types that are offered as JSON.
abbrev pub structured : List String
structured =
    TypeName.json ∷ TypeName.value_object ∷ TypeName.entity ∷ TypeName.id_array ∷ TypeName.int_array
    ∷ TypeName.float_array ∷ TypeName.string_array ∷ TypeName.date_array ∷ TypeName.enum_array
    ∷ TypeName.value_object_array ∷ TypeName.entity_array ∷ []

abbrev pub textual : List String
textual = TypeName.string ∷ TypeName.password ∷ TypeName.uuid ∷ []

unfoldable pub property_type : String → Outcome GraphType
property_type t =
    if t =? TypeName.id
    then ok id
    else if t =? TypeName.int
    then ok int
    else if t =? TypeName.float
    then ok float
    else if t =? TypeName.boolean
    then ok boolean
    else if contains textual t
    then ok string
    else if t =? TypeName.date
    then ok date_time
    else if contains structured t
    then ok json
    else if t =? TypeName.enum
    then ok string
    else if t =? TypeName.file
    then ok file
    else panic ("No column type:" <> t)

unfoldable pub input_property_type : String → Outcome GraphType
unfolding property_type
input_property_type t = if t =? TypeName.file then ok upload else property_type t

-- `attr.EumnType`, which `makeEntity` and `makeInterface` set.
unfoldable pub enum_of : List Domain.Enum → AttributeMeta → Option Domain.Enum
unfolding find_first
enum_of enums a =
    if (a.type =? TypeName.enum) || (a.type =? TypeName.enum_array)
    then find_first (λ e. e.uuid =? a.type_uuid) enums
    else none

abbrev pub found : Outcome (Made InputObject) → Outcome (Made (Option InputObject))
found o = do m ← o; ok (record { made = some m.made; enum_exps = m.enum_exps })

unfoldable pub attribute_exp :
    List Domain.Enum → AttributeMeta → Map InputObject → Outcome (Made (Option InputObject))
unfolding boolean_comparison_exp date_time_comparison_exp float_comparison_exp int_comparison_exp
    id_comparison_exp string_comparison_exp enum_comparison_exp enum_of
attribute_exp enums a exps =
    let fixed = λ (e : InputObject). found (ok (record { made = e; enum_exps = exps })) in
    if a.type =? TypeName.int
    then fixed int_comparison_exp
    else if a.type =? TypeName.float
    then fixed float_comparison_exp
    else if a.type =? TypeName.boolean
    then fixed boolean_comparison_exp
    else if contains textual a.type
    then fixed string_comparison_exp
    else if a.type =? TypeName.date
    then fixed date_time_comparison_exp
    else if contains structured a.type || (a.type =? TypeName.file)
    then ok (record { made = none; enum_exps = exps })
    else if a.type =? TypeName.id
    then fixed id_comparison_exp
    else if a.type =? TypeName.enum
    then found (enum_comparison_exp (enum_of enums a) exps)
    else panic ("No column type: " <> a.type)

-- orderby.go
unfoldable pub enum_order_by : EnumType
enum_order_by = record {
  name = "OrderBy";
  values =
      "asc" ∷ "ascNullsFirst" ∷ "ascNullsLast" ∷ "desc" ∷ "descNullsFirst" ∷ "descNullsLast" ∷ [];
}

unfoldable pub attribute_order_by : AttributeMeta → Option EnumType
unfolding enum_order_by
attribute_order_by a =
    if contains structured a.type || (a.type =? TypeName.boolean) then none else some enum_order_by
