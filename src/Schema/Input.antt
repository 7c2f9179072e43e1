-- ===== src/Schema/Input.antt =====
-- modules/app/schema/parser/input.go: what can be saved of an entity.
use entix.Prelude.{
  String, ◌<>◌, Bool, true, false, ◌&&◌, ◌||◌, not, List, [], ◌∷◌, Option, none, some, Outcome, ok,
  panic, ◌>>=◌, is_empty, ◌=?◌, if◌then◌else◌,
}
use entix.Consts
use entix.Meta.{AttributeMeta}
use entix.Graph.{Entity, Association}
use entix.Graph.Link
use entix.Graph.Inherit.{all_attributes}
use entix.Utils.Names.{first_upper}
use entix.Schema.{
  int, boolean, list_of, non_null, input, InputField, InputObject, ObjectType, Parser, takes, gives,
  set_input_field, find_key, set_key, input_of, output_type,
}
use entix.Schema.Property.{input_property_type}

-- The attributes that a call may set.
unfoldable pub is_settable : Bool → AttributeMeta → Bool
is_settable with_id a =
    (not (a.name =? Consts.id) || with_id)
    && not a.delete_date
    && not a.create_date
    && not a.update_date

unfoldable pub add_inputs : Bool → List AttributeMeta → List InputField → Outcome (List InputField)
unfolding is_settable input_property_type set_input_field
add_inputs with_id [] fs = ok fs
add_inputs with_id (a ∷ as') fs =
    if is_settable with_id a
    then (input_property_type a.type >>= λ t.
        add_inputs with_id as'
          (set_input_field (record { name = a.name; type = t; description = a.description }) fs))
    else add_inputs with_id as' fs

unfoldable pub input_fields : Entity → Bool → Outcome (List InputField)
unfolding add_inputs all_attributes
input_fields e with_id = add_inputs with_id (all_attributes e) []

unfoldable pub make_entity_save_input : Entity → Outcome InputObject
unfolding input_fields
make_entity_save_input e = do
  fs ← input_fields e true
  ok (record { name = e.domain.name <> Consts.input; fields = fs })

unfoldable pub make_entity_set_input : Entity → Outcome InputObject
unfolding input_fields
make_entity_set_input e = do
  fs ← input_fields e false
  ok (record { name = e.domain.name <> Consts.set_input; fields = fs })

unfoldable pub make_mutation_response : Parser → Entity → Outcome ObjectType
unfolding output_type
make_mutation_response p e = do
  t ← output_type p e.domain.name
  ok (record {
    name = e.domain.name <> Consts.mutation_response;
    fields =
        gives Consts.response_affectedrows int
        ∷ gives Consts.response_returning (non_null (list_of t))
        ∷ [];
    interfaces = [];
    description = "";
  })

unfoldable pub has_many_name : Entity → String
unfolding first_upper
has_many_name e = first_upper Consts.set <> (e.domain.name <> Consts.has_many)

unfoldable pub has_one_name : Entity → String
unfolding first_upper
has_one_name e = first_upper Consts.set <> (e.domain.name <> Consts.has_one)

unfoldable pub make_has_many_input : Parser → Entity → InputObject
unfolding has_many_name find_key input_of
make_has_many_input p e =
    let list_type = list_of (input_of (find_key e.domain.name p.save_inputs)) in
    record {
      name = has_many_name e;
      fields =
          takes Consts.arg_add list_type
          ∷ takes Consts.arg_delete list_type
          ∷ takes Consts.arg_update list_type
          ∷ takes Consts.arg_sync list_type
          ∷ takes Consts.arg_cascade boolean
          ∷ [];
    }

unfoldable pub make_has_one_input : Parser → Entity → InputObject
unfolding has_one_name find_key input_of
make_has_one_input p e = record {
  name = has_one_name e;
  fields =
      takes Consts.arg_clear boolean
      ∷ takes Consts.arg_sync (input_of (find_key e.domain.name p.save_inputs))
      ∷ takes Consts.arg_cascade boolean
      ∷ [];
}

-- The first two loops of `makeInputs`.
unfoldable pub save_inputs : List Entity → Parser → Outcome Parser
unfolding make_entity_set_input make_entity_save_input make_mutation_response set_key
save_inputs [] p = ok p
save_inputs (e ∷ es) p = do
  set ← make_entity_set_input e
  save ← make_entity_save_input e
  response ← make_mutation_response p e
  save_inputs es (record p {
    set_inputs = set_key e.domain.name set p.set_inputs;
    save_inputs = set_key e.domain.name save p.save_inputs;
    mutation_responses = set_key e.domain.name response p.mutation_responses;
  })

unfoldable pub association_inputs : List Entity → Parser → Parser
unfolding make_has_many_input make_has_one_input set_key
association_inputs [] p = p
association_inputs (e ∷ es) p = association_inputs es (record p {
  has_many_inputs = set_key e.domain.name (make_has_many_input p e) p.has_many_inputs;
  has_one_inputs = set_key e.domain.name (make_has_one_input p e) p.has_one_inputs;
})

-- `getAssociationType`
unfoldable pub association_type : Parser → Association → Option InputObject
unfolding find_key Link.is_array Link.type_entity
association_type p a =
    let name = (Link.type_entity a).domain.name in
    if Link.is_array a then find_key name p.has_many_inputs else find_key name p.has_one_inputs

abbrev extended : InputField → Option InputObject → Outcome InputObject
extended f none = panic "nil pointer dereference"
extended f (some o) = ok (record o { fields = set_input_field f o.fields })

-- Both inputs of the entity get a field for the association.
unfoldable pub extend_inputs : String → InputField → Parser → Outcome Parser
unfolding find_key set_key set_input_field
extend_inputs name f p = do
  set ← extended f (find_key name p.set_inputs)
  save ← extended f (find_key name p.save_inputs)
  ok (record p {
    set_inputs = set_key name set p.set_inputs;
    save_inputs = set_key name save p.save_inputs;
  })

-- The body of the inner loop of `makeEntityInputRelations`, from the save input of the owner and the
-- type of the association.
unfoldable pub relate :
    String → Association → Option InputObject → Option InputObject → Parser → Outcome Parser
unfolding extend_inputs Link.name Link.owner Link.description
relate name a none type p = panic ("can not find save input:" <> (Link.owner a).domain.name)
relate name a (some owner) type p = if is_empty owner.fields then ok p else elim type [
  | none ↦
      panic
        ("Can not get association type:" <> ((Link.owner a).domain.name <> ("." <> Link.name a)))
  | some t ↦
      extend_inputs name
        (record { name = Link.name a; type = input t.name; description = Link.description a }) p
]

unfoldable pub relate_all : String → List Association → Parser → Outcome Parser
unfolding relate find_key association_type Link.owner
relate_all name [] p = ok p
relate_all name (a ∷ as') p =
    relate name a (find_key (Link.owner a).domain.name p.save_inputs) (association_type p a) p
    >>= relate_all name as'

unfoldable pub input_relations : List Entity → Parser → Outcome Parser
unfolding relate_all
input_relations [] p = ok p
input_relations (e ∷ es) p = relate_all e.domain.name e.associations p >>= input_relations es

unfoldable pub make_inputs : List Entity → Parser → Outcome Parser
unfolding save_inputs association_inputs input_relations
make_inputs es p = do saved ← save_inputs es p; input_relations es (association_inputs es saved)
