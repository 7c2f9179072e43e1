-- ===== src/Schema/Output.antt =====
-- modules/app/schema/parser/query.go, relation.go, enum.go, parser.go: the types of what is queried, and
-- `ParseModel`.
pub mod Passwords
use entix.Prelude.{
  String, ◌<>◌, not, List, [], ◌∷◌, map, Option, none, some, Outcome, ok, panic, ◌>>=◌, find_first,
  is_some, ◌=?◌, if◌then◌else◌,
}
use entix.Consts
use entix.Meta.{AttributeMeta}
use entix.Meta.TypeName
use entix.Domain
use entix.Graph.{Entity, Interface, Association}
use entix.Graph.Link
use entix.Graph.Inherit.{all_attributes, all_interface_attributes}
use entix.Graph.Name.{list_name}
use entix.Graph.Build
use entix.Schema.{
  GraphType, int, list_of, non_null, object, Field, InputField, ObjectType, EnumType, Parser, takes,
  gives, Map, set_values, set_field, find_key, set_key, output_type, empty_parser,
}
use entix.Schema.Property.{property_type}
use entix.Schema.Aggregate.{aggregate_type}
use entix.Schema.Arguments.{make_query_args, query_args}
use entix.Schema.Input.{make_inputs}

-- The loop of `OutputFields`.
unfoldable pub add_outputs : List AttributeMeta → List Field → Outcome (List Field)
unfolding property_type set_field
add_outputs [] fs = ok fs
add_outputs (a ∷ as') fs =
    if not (a.type =? TypeName.password)
    then (property_type a.type >>= λ t.
        add_outputs as' (
          set_field (record { name = a.name; type = t; args = []; description = a.description })
            fs))
    else add_outputs as' fs

unfoldable pub output_fields : List AttributeMeta → Outcome (List Field)
unfolding add_outputs
output_fields attrs = add_outputs attrs []

-- `EnumType`
unfoldable pub enum_type : Domain.Enum → EnumType
unfolding set_values
enum_type e = record { name = e.name; values = set_values e.values [] }

unfoldable pub make_enums : List Domain.Enum → Parser → Parser
unfolding enum_type set_key
make_enums [] p = p
make_enums (e ∷ es) p =
    make_enums es (record p { enum_types = set_key e.name (enum_type e) p.enum_types })

unfoldable pub interface_type : Interface → Outcome ObjectType
unfolding output_fields all_interface_attributes
interface_type i = do
  fs ← output_fields (all_interface_attributes i)
  ok (record {
    name = i.domain.name;
    fields = fs;
    interfaces = [];
    description = i.domain.description;
  })

unfoldable pub make_output_interfaces : List Interface → Parser → Outcome Parser
unfolding interface_type set_key
make_output_interfaces [] p = ok p
make_output_interfaces (i ∷ is) p = do
  t ← interface_type i
  make_output_interfaces is
      (record p { interface_types = set_key i.domain.name t p.interface_types })

-- `ObjectType`; the interfaces are those of the entity, by their names.
unfoldable pub object_type : Entity → Outcome ObjectType
unfolding output_fields all_attributes
object_type e = do
  fs ← output_fields (all_attributes e)
  ok (record {
    name = e.domain.name;
    fields = fs;
    interfaces = map (λ c. c.name) e.interfaces;
    description = e.domain.description;
  })

unfoldable pub make_entity_objects : List Entity → Parser → Outcome Parser
unfolding object_type set_key
make_entity_objects [] p = ok p
make_entity_objects (e ∷ es) p = do
  t ← object_type e
  make_entity_objects es (record p { object_types = set_key e.domain.name t p.object_types })

unfoldable pub make_third_party_objects : List Domain.Class → Parser → Outcome Parser
unfolding output_fields set_key
make_third_party_objects [] p = ok p
make_third_party_objects (c ∷ cs) p = do
  fs ← output_fields c.attributes
  let t : ObjectType = record {
    name = c.name;
    fields = fs;
    interfaces = [];
    description = c.description;
  }
  make_third_party_objects cs (record p { object_types = set_key c.name t p.object_types })

-- `AssociationType`
unfoldable pub association_output : Parser → Association → Outcome GraphType
unfolding output_type Link.is_array Link.type_entity
association_output p a = output_type p (Link.type_entity a).domain.name >>= λ t.
    ok (if Link.is_array a then non_null (list_of t) else t)

abbrev find_field : String → List Field → Option Field
find_field name = find_first (λ f. f.name =? name)

-- The inner loop of `makeRelations`.
unfoldable pub add_relations : Parser → String → List Association → ObjectType → Outcome ObjectType
unfolding association_output query_args set_field find_first Link.name Link.description
    Link.type_entity
add_relations p name [] t = ok t
add_relations p name (a ∷ as') t =
    if is_some (find_field (Link.name a) t.fields)
    then panic ("Duplicate entity field: " <> (name <> ("." <> Link.name a)))
    else (association_output p a >>= λ type. add_relations p name as' (record t {
      fields =
          set_field
            (record {
              name = Link.name a;
              type = type;
              args = query_args p (Link.type_entity a).domain.name;
              description = Link.description a;
            })
            t.fields;
    }))

unfoldable pub relate_object : Option ObjectType → Entity → Parser → Outcome Parser
unfolding add_relations set_key
relate_object none e p = panic "nil pointer dereference"
relate_object (some t) e p = do
  done ← add_relations p e.domain.name e.associations t
  ok (record p { object_types = set_key e.domain.name done p.object_types })

unfoldable pub make_relations : List Entity → Parser → Outcome Parser
unfolding relate_object find_key
make_relations [] p = ok p
make_relations (e ∷ es) p =
    relate_object (find_key e.domain.name p.object_types) e p >>= make_relations es

unfoldable pub parse_model : Build.Model → Outcome Parser
unfolding make_enums make_output_interfaces make_entity_objects make_third_party_objects
    make_query_args make_relations make_inputs
parse_model m = make_output_interfaces m.interfaces (make_enums m.enums empty_parser) >>= λ p1.
    make_entity_objects m.entities p1 >>= λ p2.
    make_third_party_objects m.third_parties p2 >>= λ p3.
    make_query_args m p3 >>= λ p4. make_relations m.entities p4 >>= make_inputs m.entities

abbrev list_fields : GraphType → List Field
list_fields t = gives Consts.nodes (list_of t) ∷ gives Consts.total int ∷ []

-- `ClassListType` and `EntityListType`, which find what they made before.
unfoldable pub class_list_type : Domain.Class → Parser → Outcome (Parser × ObjectType)
unfolding find_key set_key output_type
class_list_type c p =
    let name = list_name c in
    elim (find_key name p.lists) [
      | some t ↦ ok (p, t)
      | none ↦ do
        out ← output_type p c.name
        let t : ObjectType = record {
          name = name;
          fields = list_fields out;
          interfaces = [];
          description = "";
        }
        ok (record p { lists = set_key name t p.lists }, t)
    ]

unfoldable pub entity_list_type : Entity → Parser → Outcome (Parser × ObjectType)
unfolding find_key set_key set_field output_type aggregate_type
entity_list_type e p =
    let name = list_name e.domain in
    elim (find_key name p.lists) [
      | some t ↦ ok (p, t)
      | none ↦ do
        out ← output_type p e.domain.name
        made ← aggregate_type e p
        let t : ObjectType = record {
          name = name;
          fields = set_field (gives Consts.aggregate (object made.1.name)) (list_fields out);
          interfaces = [];
          description = "";
        }
        ok (record made.0 { lists = set_key name t made.0.lists }, t)
    ]
