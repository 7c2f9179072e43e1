-- ===== src/Schema/Arguments.antt =====
-- modules/app/schema/parser/queryargs.go: the arguments of a query.
use entix.Prelude.{
  String, ◌<>◌, List, [], ◌∷◌, map, Option, none, some, Outcome, ok, panic, ◌>>=◌, find_first,
  is_empty, ◌=?◌, if◌then◌else◌,
}
use entix.Consts
use entix.Meta.{AttributeMeta}
use entix.Domain
use entix.Graph.{Entity, Interface, Association}
use entix.Graph.Link
use entix.Graph.Inherit.{all_attributes, all_interface_attributes}
use entix.Graph.Build
use entix.Schema.{
  int, list_of, non_null, input, enum, InputField, InputObject, EnumType, Parser, takes, Map,
  set_values, set_input_field, find_key, set_key, input_of, enum_type_of,
}
use entix.Schema.Comparison.{Made}
use entix.Schema.Property.{attribute_exp, attribute_order_by}

-- The field of an attribute, if it has one.
unfoldable pub add_exp : String → Option InputObject → List InputField → List InputField
unfolding set_input_field
add_exp name none fs = fs
add_exp name (some e) fs = set_input_field (takes name (input e.name)) fs

-- The loop of `makeWhereExp`.
unfoldable pub add_exps :
    List Domain.Enum
    → List AttributeMeta
    → Map InputObject
    → List InputField
    → Outcome (Made (List InputField))
unfolding attribute_exp add_exp
add_exps enums [] exps fs = ok (record { made = fs; enum_exps = exps })
add_exps enums (a ∷ as') exps fs = do
  m ← attribute_exp enums a exps
  add_exps enums as' m.enum_exps (add_exp a.name m.made fs)

unfoldable pub make_where_exp :
    List Domain.Enum → String → List AttributeMeta → Map InputObject → Outcome (Made InputObject)
unfolding add_exps
make_where_exp enums name attrs exps =
    let exp_name = name <> Consts.bool_exp in
    let self = input exp_name in
    do
      m ← add_exps enums attrs exps (
          takes Consts.arg_and (list_of (non_null self))
          ∷ takes Consts.arg_not self
          ∷ takes Consts.arg_or (list_of (non_null self))
          ∷ [])
      ok (record { made = record { name = exp_name; fields = m.made }; enum_exps = m.enum_exps })

unfoldable pub add_order_bys : List AttributeMeta → List InputField → List InputField
unfolding attribute_order_by set_input_field
add_order_bys [] fs = fs
add_order_bys (a ∷ as') fs = add_order_bys as' (elim (attribute_order_by a) [
  | none ↦ fs
  | some e ↦ set_input_field (takes a.name (enum e.name)) fs
])

unfoldable pub make_order_by : String → List AttributeMeta → InputObject
unfolding add_order_bys
make_order_by name attrs = record { name = name <> Consts.orderby; fields = add_order_bys attrs [] }

unfoldable pub make_distinct_on_enum : String → List AttributeMeta → EnumType
unfolding set_values
make_distinct_on_enum name attrs = record {
  name = name <> Consts.distinct_exp;
  values = set_values (map (λ a. a.name) attrs) [];
}

unfoldable pub make_one_args :
    List Domain.Enum → String → List AttributeMeta → Parser → Outcome Parser
unfolding make_where_exp make_order_by make_distinct_on_enum set_key
make_one_args enums name attrs p = do
  m ← make_where_exp enums name attrs p.enum_exps
  let order_by = make_order_by name attrs
  ok (record p {
    enum_exps = m.enum_exps;
    where_exps = set_key name m.made p.where_exps;
    order_bys = if is_empty order_by.fields then p.order_bys else set_key name order_by p.order_bys;
    distinct_on_enums = set_key name (make_distinct_on_enum name attrs) p.distinct_on_enums;
  })

-- The three loops of `makeQueryArgs`.
unfoldable pub interface_args : List Domain.Enum → List Interface → Parser → Outcome Parser
unfolding make_one_args all_interface_attributes
interface_args enums [] p = ok p
interface_args enums (i ∷ is) p =
    if i.domain.root
    then (make_one_args enums i.domain.name (all_interface_attributes i) p
        >>= interface_args enums is)
    else interface_args enums is p

unfoldable pub entity_args : List Domain.Enum → List Entity → Parser → Outcome Parser
unfolding make_one_args all_attributes
entity_args enums [] p = ok p
entity_args enums (e ∷ es) p =
    make_one_args enums e.domain.name (all_attributes e) p >>= entity_args enums es

-- The enums of the attributes of a third party are set nowhere.
unfoldable pub third_party_args : List Domain.Class → Parser → Outcome Parser
unfolding make_one_args
third_party_args [] p = ok p
third_party_args (c ∷ cs) p = make_one_args [] c.name c.attributes p >>= third_party_args cs

-- The associations of an entity become fields of its condition. `before` holds the conditions of the
-- loop; their names are all there already.
unfoldable pub add_associations : Map InputObject → List Association → InputObject → InputObject
unfolding set_input_field input_of find_key Link.name Link.type_entity
add_associations before [] exp = exp
add_associations before (a ∷ as') exp = add_associations before as' (record exp {
  fields =
      set_input_field
        (takes (Link.name a) (input_of (find_key (Link.type_entity a).domain.name before)))
        exp.fields;
})

unfoldable pub relation_exp :
    Map InputObject
    → String
    → InputObject
    → Option Entity
    → Option Domain.Class
    → Outcome InputObject
unfolding add_associations
relation_exp before name exp none none = panic ("Fatal error, can not find class by name:" <> name)
relation_exp before name exp none (some third) = ok exp
relation_exp before name exp (some e) third = ok (add_associations before e.associations exp)

-- `makeRelaionWhereExp`
unfoldable pub relation_exps :
    List Entity → List Domain.Class → Map InputObject → Map InputObject → Outcome (Map InputObject)
unfolding relation_exp find_first
relation_exps entities thirds before [] = ok []
relation_exps entities thirds before ((name, exp) ∷ rest) = do
  e ←
      relation_exp before name exp (find_first (λ e. e.domain.name =? name) entities)
        (find_first (λ c. c.name =? name) thirds)
  es ← relation_exps entities thirds before rest
  ok ((name, e) ∷ es)

unfoldable pub make_query_args : Build.Model → Parser → Outcome Parser
unfolding interface_args entity_args third_party_args relation_exps
make_query_args m p = do
  p1 ← interface_args m.enums m.interfaces p
  p2 ← entity_args m.enums m.entities p1
  p3 ← third_party_args m.third_parties p2
  exps ← relation_exps m.entities m.third_parties p3.where_exps p3.where_exps
  ok (record p3 { where_exps = exps })

abbrev order_arg : Option InputObject → List InputField
order_arg none = []
order_arg (some o) = takes Consts.arg_orderby (list_of (input o.name)) ∷ []

-- `QueryArgs`
unfoldable pub query_args : Parser → String → List InputField
unfolding find_key input_of enum_type_of
query_args p name =
    takes Consts.arg_distincton (enum_type_of (find_key name p.distinct_on_enums))
    ∷ takes Consts.arg_limit int
    ∷ takes Consts.arg_offset int
    ∷ takes Consts.arg_where (input_of (find_key name p.where_exps))
    ∷ order_arg (find_key name p.order_bys)
