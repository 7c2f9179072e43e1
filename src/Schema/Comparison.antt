-- ===== src/Schema/Comparison.antt =====
-- modules/app/schema/parser/comparison.go: the operators that a condition can ask of a field.
use entix.Prelude.{String, ◌<>◌, List, [], ◌∷◌, ◌++◌, Option, none, some, Outcome, ok, panic}
use entix.Consts
use entix.Domain
use entix.Schema.{
  GraphType, int, float, boolean, string, id, date_time, list_of, InputField, InputObject, takes,
  Map, find_key, set_key,
}

-- What all but enums are asked.
abbrev pub compared : GraphType → List InputField
compared t =
    takes Consts.arg_eq t
    ∷ takes Consts.arg_gt t
    ∷ takes Consts.arg_gte t
    ∷ takes Consts.arg_in (list_of t)
    ∷ takes Consts.arg_lt t
    ∷ takes Consts.arg_lte t
    ∷ takes Consts.arg_noteq t
    ∷ takes Consts.arg_notin (list_of t)
    ∷ []

abbrev pub nullable : List InputField
nullable = takes Consts.arg_isnull boolean ∷ []

unfoldable pub boolean_comparison_exp : InputObject
boolean_comparison_exp = record {
  name = "BooleanComparisonExp";
  fields = compared boolean ++ nullable;
}

unfoldable pub date_time_comparison_exp : InputObject
date_time_comparison_exp = record {
  name = "DateTimeComparisonExp";
  fields = compared date_time ++ nullable;
}

unfoldable pub float_comparison_exp : InputObject
float_comparison_exp = record { name = "FloatComparisonExp"; fields = compared float ++ nullable }

unfoldable pub int_comparison_exp : InputObject
int_comparison_exp = record { name = "IntComparisonExp"; fields = compared int ++ nullable }

unfoldable pub id_comparison_exp : InputObject
id_comparison_exp = record { name = "IdComparisonExp"; fields = compared id }

-- What texts are asked besides.
abbrev pub matched : List InputField
matched =
    takes Consts.arg_ilike string
    ∷ takes Consts.arg_like string
    ∷ takes Consts.arg_notilike string
    ∷ takes Consts.arg_notlike string
    ∷ takes Consts.arg_notregex string
    ∷ takes Consts.arg_regex string
    ∷ []

unfoldable pub string_comparison_exp : InputObject
string_comparison_exp = record {
  name = "StringComparisonExp";
  fields = (compared string ++ nullable) ++ matched;
}

unfoldable pub enum_fields : List InputField
enum_fields =
    takes Consts.arg_eq string
    ∷ takes Consts.arg_in (list_of string)
    ∷ takes Consts.arg_isnull boolean
    ∷ takes Consts.arg_noteq string
    ∷ takes Consts.arg_notin (list_of string)
    ∷ []

-- What a call has, and `enumComparisonExpMap` behind it.
abbrev pub Made {ℓ} : Type ℓ → Type ℓ
Made A = record { made : A; enum_exps : Map InputObject }

unfoldable pub new_enum_exp : String → InputObject
unfolding enum_fields
new_enum_exp name = record { name = name <> "EnumComparisonExp"; fields = enum_fields }

-- One is made for each enum, and found again by the enum's name.
unfoldable pub cached_enum_exp : String → Map InputObject → Option InputObject → Made InputObject
unfolding new_enum_exp set_key
cached_enum_exp name exps (some e) = record { made = e; enum_exps = exps }
cached_enum_exp name exps none = record {
  made = new_enum_exp name;
  enum_exps = set_key name (new_enum_exp name) exps;
}

-- `EnumComparisonExp`, from the enum that the attribute points to.
unfoldable pub enum_comparison_exp :
    Option Domain.Enum → Map InputObject → Outcome (Made InputObject)
unfolding cached_enum_exp find_key
enum_comparison_exp none exps = panic "Can not find enum entity"
enum_comparison_exp (some e) exps = ok (cached_enum_exp e.name exps (find_key e.name exps))
