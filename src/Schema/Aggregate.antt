-- ===== src/Schema/Aggregate.antt =====
-- modules/app/schema/parser/aggregate.go: the aggregates of an entity. The ten functions for numbers
-- have one body.
use entix.Prelude.{
  String, ◌<>◌, Bool, ◌&&◌, ◌||◌, not, List, [], ◌∷◌, none, some, Outcome, ok, ◌>>=◌, is_empty,
  ◌=?◌, if◌then◌else◌,
}
use entix.Consts
use entix.Meta.{AttributeMeta, MethodMeta}
use entix.Meta.TypeName
use entix.Graph.{Entity}
use entix.Graph.Inherit.{all_attributes}
use entix.Graph.Name.{aggregate_name}
use entix.Schema.{
  int, boolean, object, input, Field, InputField, ObjectType, Parser, takes, gives, set_field,
  set_input_field, find_key, set_key,
}
use entix.Schema.Property.{property_type, input_property_type}

abbrev is_number : String → Bool
is_number t = (t =? TypeName.int) || (t =? TypeName.float)

unfoldable pub add_attributes : List AttributeMeta → List Field → Outcome (List Field)
unfolding property_type set_field
add_attributes [] fs = ok fs
add_attributes (a ∷ as') fs =
    if is_number a.type
    then (property_type a.type >>= λ t. add_attributes as' (set_field (gives a.name t) fs))
    else add_attributes as' fs

unfoldable pub add_methods : List MethodMeta → List Field → Outcome (List Field)
unfolding property_type set_field
add_methods [] fs = ok fs
add_methods (m ∷ ms) fs =
    if is_number m.type && is_empty m.args
    then (property_type m.type >>= λ t. add_methods ms (set_field (gives m.name t) fs))
    else add_methods ms fs

unfoldable pub number_fields : List AttributeMeta → List MethodMeta → Outcome (List Field)
unfolding add_attributes add_methods
number_fields attrs methods = do fs ← add_attributes attrs []; add_methods methods fs

unfoldable pub avg_fields : List AttributeMeta → List MethodMeta → Outcome (List Field)
unfolding number_fields
avg_fields = number_fields

unfoldable pub max_fields : List AttributeMeta → List MethodMeta → Outcome (List Field)
unfolding number_fields
max_fields = number_fields

unfoldable pub min_fields : List AttributeMeta → List MethodMeta → Outcome (List Field)
unfolding number_fields
min_fields = number_fields

unfoldable pub stddev_fields : List AttributeMeta → List MethodMeta → Outcome (List Field)
unfolding number_fields
stddev_fields = number_fields

unfoldable pub stddev_pop_fields : List AttributeMeta → List MethodMeta → Outcome (List Field)
unfolding number_fields
stddev_pop_fields = number_fields

unfoldable pub stddev_samp_fields : List AttributeMeta → List MethodMeta → Outcome (List Field)
unfolding number_fields
stddev_samp_fields = number_fields

unfoldable pub sum_fields : List AttributeMeta → List MethodMeta → Outcome (List Field)
unfolding number_fields
sum_fields = number_fields

unfoldable pub var_pop_fields : List AttributeMeta → List MethodMeta → Outcome (List Field)
unfolding number_fields
var_pop_fields = number_fields

unfoldable pub var_samp_fields : List AttributeMeta → List MethodMeta → Outcome (List Field)
unfolding number_fields
var_samp_fields = number_fields

unfoldable pub variance_fields : List AttributeMeta → List MethodMeta → Outcome (List Field)
unfolding number_fields
variance_fields = number_fields

-- `selectFields`
unfoldable pub select_fields : List AttributeMeta → List InputField → Outcome (List InputField)
unfolding input_property_type set_input_field
select_fields [] fs = ok fs
select_fields (a ∷ as') fs =
    if not (a.type =? TypeName.file)
    then (input_property_type a.type >>= λ t.
        select_fields as' (set_input_field (takes a.name t) fs))
    else select_fields as' fs

-- What is there so far: the fields, and the object types made for them.
abbrev pub Aggregates : Type 0
Aggregates = record { fields : List Field; types : List ObjectType }

-- `if len(…) > 0 { fields[key] = … }`
unfoldable pub add_aggregate : String → String → List Field → Aggregates → Aggregates
unfolding set_field
add_aggregate key type_name fs g = if is_empty fs then g else record {
  fields = set_field (gives key (object type_name)) g.fields;
  types = record { name = type_name; fields = fs; interfaces = []; description = "" } ∷ g.types;
}

-- The field `count`, with the columns that it can be asked of.
unfoldable pub add_count : String → List InputField → Parser → Aggregates → Parser × Aggregates
unfolding set_field set_key
add_count name columns p g =
    let type_name = name <> "SelectColumn" in
    if is_empty columns then (p, g) else (
      record p {
        select_columns =
            set_key type_name (record { name = type_name; fields = columns }) p.select_columns;
      },
      record g {
        fields =
            set_field
              (record {
                name = Consts.arg_count;
                type = int;
                args =
                    takes Consts.arg_columns (input type_name)
                    ∷ takes Consts.arg_distinct boolean
                    ∷ [];
                description = "";
              })
              g.fields;
      },
    )

unfoldable pub aggregate_fields :
    String → List AttributeMeta → List MethodMeta → Parser → Outcome (Parser × Aggregates)
unfolding avg_fields max_fields min_fields stddev_fields stddev_pop_fields stddev_samp_fields
    sum_fields var_pop_fields var_samp_fields variance_fields select_fields add_aggregate add_count
aggregate_fields name attrs methods p = do
  avg ← avg_fields attrs methods
  max ← max_fields attrs methods
  min ← min_fields attrs methods
  columns ← select_fields attrs []
  let first = add_aggregate "min" (name <> "MinFields") min (
      add_aggregate "max" (name <> "MaxFields") max
        (add_aggregate "avg" (name <> "AvgFields") avg (record { fields = []; types = [] })))
  let counted = add_count name columns p first
  stddev ← stddev_fields attrs methods
  stddev_pop ← stddev_pop_fields attrs methods
  stddev_samp ← stddev_samp_fields attrs methods
  sum ← sum_fields attrs methods
  var_pop ← var_pop_fields attrs methods
  var_samp ← var_samp_fields attrs methods
  variance ← variance_fields attrs methods
  ok (
    counted.0,
    add_aggregate "variance" (name <> "VarianceFields") variance (
        add_aggregate "varSamp" (name <> "VarSampFields") var_samp (
          add_aggregate "varPop" (name <> "VarPopFields") var_pop (
            add_aggregate "sum" (name <> "SumFields") sum (
              add_aggregate "stddevSamp" (name <> "StddevSampFields") stddev_samp (
                add_aggregate "stddevPop" (name <> "StddevPopFields") stddev_pop
                  (add_aggregate "stddev" (name <> "StddevFields") stddev counted.1)))))),
  )

-- `aggregateType`, which makes one for each entity and finds it again.
unfoldable pub aggregate_type : Entity → Parser → Outcome (Parser × ObjectType)
unfolding aggregate_fields all_attributes find_key set_key
aggregate_type e p =
    let key = aggregate_name e.domain in
    elim (find_key key p.aggregates) [
      | some t ↦ ok (p, t)
      | none ↦ do
        made ← aggregate_fields e.domain.name (all_attributes e) e.domain.methods p
        let t : ObjectType = record {
          name = key <> Consts.fields;
          fields = made.1.fields;
          interfaces = [];
          description = "";
        }
        ok (record made.0 { aggregates = set_key key t made.0.aggregates }, t)
    ]
