-- ===== src/Schema.antt =====
-- modules/app/schema/parser/: the GraphQL types that a model is offered as. A type is described by its
-- scalar, or by its name where it is an object, an input object, an interface or an enum of the
-- schema; the resolvers that the fields carry are left out. Go's maps are lists of entries in which a
-- second entry for a key replaces the first.
pub mod Comparison
pub mod Property
pub mod Aggregate
pub mod Arguments
pub mod Input
pub mod Output
pub mod Fields
pub mod Offered
use entix.Prelude.{
  String, ◌<>◌, Outcome, ok, panic, List, [], ◌∷◌, Option, none, some, ◌=?◌, if◌then◌else◌,
}

-- `nil_type` is a nil pointer.
pub data GraphType : Type 0 where
  int float boolean string id date_time json upload file nil_type : GraphType
  list_of non_null : GraphType → GraphType
  object input interface enum : String → GraphType

pub record InputField : Type 0 where
  pub name : String
  pub type : GraphType
  pub description : String

pub record Field : Type 0 where
  pub name : String
  pub type : GraphType
  pub args : List InputField
  pub description : String

pub record InputObject : Type 0 where
  pub name : String
  pub fields : List InputField

pub record ObjectType : Type 0 where
  pub name : String
  pub fields : List Field
  pub interfaces : List String
  pub description : String

pub record EnumType : Type 0 where
  pub name : String
  pub values : List String

-- An input field or an argument without a description.
abbrev pub takes : String → GraphType → InputField
takes name type = record { name = name; type = type; description = "" }

abbrev pub gives : String → GraphType → Field
gives name type = record { name = name; type = type; args = []; description = "" }

-- `fields[name] = …`
unfoldable pub set_input_field : InputField → List InputField → List InputField
set_input_field f [] = f ∷ []
set_input_field f (g ∷ gs) = if g.name =? f.name then f ∷ gs else g ∷ set_input_field f gs

unfoldable pub set_field : Field → List Field → List Field
set_field f [] = f ∷ []
set_field f (g ∷ gs) = if g.name =? f.name then f ∷ gs else g ∷ set_field f gs

-- The values of an enum are the keys of a map.
unfoldable pub set_value : String → List String → List String
set_value v [] = v ∷ []
set_value v (w ∷ ws) = if w =? v then w ∷ ws else w ∷ set_value v ws

unfoldable pub set_values : List String → List String → List String
unfolding set_value
set_values [] ws = ws
set_values (v ∷ vs) ws = set_values vs (set_value v ws)

-- The maps of `ModelParser`, by name.
abbrev pub Map {ℓ} : Type ℓ → Type ℓ
Map A = List (String × A)

unfoldable pub find_key {ℓ} : {A : Type ℓ} → String → Map A → Option A
find_key key [] = none
find_key key ((k, a) ∷ m) = if k =? key then some a else find_key key m

unfoldable pub set_key {ℓ} : {A : Type ℓ} → String → A → Map A → Map A
set_key key a [] = (key, a) ∷ []
set_key key a ((k, b) ∷ m) = if k =? key then (key, a) ∷ m else (k, b) ∷ set_key key a m

-- `ModelParser`, but for the model, and for `objectMapById`, which only type resolution reads.
pub record Parser : Type 0 where
  pub object_types : Map ObjectType
  pub enum_types : Map EnumType
  pub interface_types : Map ObjectType
  pub set_inputs : Map InputObject
  pub save_inputs : Map InputObject
  pub has_many_inputs : Map InputObject
  pub has_one_inputs : Map InputObject
  pub where_exps : Map InputObject
  pub distinct_on_enums : Map EnumType
  pub order_bys : Map InputObject
  pub enum_exps : Map InputObject
  pub mutation_responses : Map ObjectType
  pub aggregates : Map ObjectType
  pub lists : Map ObjectType
  pub select_columns : Map InputObject

-- `reset`
abbrev pub empty_parser : Parser
empty_parser = record {
  object_types = [];
  enum_types = [];
  interface_types = [];
  set_inputs = [];
  save_inputs = [];
  has_many_inputs = [];
  has_one_inputs = [];
  where_exps = [];
  distinct_on_enums = [];
  order_bys = [];
  enum_exps = [];
  mutation_responses = [];
  aggregates = [];
  lists = [];
  select_columns = [];
}

-- A pointer out of one of the maps, as a type.
unfoldable pub input_of : Option InputObject → GraphType
input_of none = nil_type
input_of (some o) = input o.name

unfoldable pub enum_type_of : Option EnumType → GraphType
enum_type_of none = nil_type
enum_type_of (some e) = enum e.name

-- `OutputType`: an interface of the name, or else an object.
unfoldable pub output_type : Parser → String → Outcome GraphType
unfolding find_key
output_type p name = elim (find_key name p.interface_types) [
  | some t ↦ ok (interface t.name)
  | none ↦ elim (find_key name p.object_types) [
    | some t ↦ ok (object t.name)
    | none ↦ panic ("Can not find output type of " <> name)
  ]
]
