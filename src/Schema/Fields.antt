-- ===== src/Schema/Fields.antt =====
-- modules/app/schema/query.go, mutation.go; parser/methodargs.go, methodtype.go: the queries and mutations
-- of a model. `plural` stands for the pluralize package. `convertFieldsArray` lists what is here a list.
pub mod Rooted
use entix.Prelude.{
  String, ◌<>◌, Bool, List, [], ◌∷◌, Option, none, some, Outcome, ok, panic, ◌>>=◌, find_first,
  is_empty, ◌=?◌, if◌then◌else◌,
}
use entix.Consts
use entix.Meta.{ArgMeta, OrchestrationMeta}
use entix.Meta.TypeName
use entix.Domain
use entix.Graph.{Entity}
use entix.Graph.Name.{
  query_one_name, delete_name, delete_by_id_name, set_name, upsert_name, upsert_one_name,
}
use entix.Utils.Names.{first_lower}
use entix.Schema.{
  GraphType, string, id, upload, list_of, non_null, object, nil_type, Field, InputField,
  InputObject, ObjectType, Parser, takes, set_input_field, set_field, find_key, input_of,
  output_type,
}
use entix.Schema.Property.{property_type}
use entix.Schema.Arguments.{query_args}
use entix.Schema.Output.{entity_list_type}

-- What has been made so far.
abbrev pub Fields : Type 0
Fields = record { parser : Parser; fields : List Field }

unfoldable pub entity_by_uuid : List Entity → String → Outcome Entity
unfolding find_first
entity_by_uuid entities uuid = elim (find_first (λ e. e.domain.uuid =? uuid) entities) [
  | none ↦ panic ("Can not find entity by uuid:" <> uuid)
  | some e ↦ ok e
]

unfoldable pub save_input : Parser → Entity → GraphType
unfolding input_of find_key
save_input p e = input_of (find_key e.domain.name p.save_inputs)

unfoldable pub arg_type : List Entity → Parser → ArgMeta → Outcome GraphType
unfolding entity_by_uuid save_input property_type
arg_type entities p a =
    if a.type =? TypeName.entity
    then (entity_by_uuid entities a.type_uuid >>= λ e. ok (save_input p e))
    else if a.type =? TypeName.entity_array
    then (entity_by_uuid entities a.type_uuid >>= λ e.
        ok (non_null (list_of (non_null (save_input p e)))))
    else property_type a.type

unfoldable pub method_args :
    List Entity → Parser → List ArgMeta → List InputField → Outcome (List InputField)
unfolding arg_type set_input_field
method_args entities p [] fs = ok fs
method_args entities p (a ∷ as') fs = do
  t ← arg_type entities p a
  method_args entities p as' (set_input_field (takes a.name t) fs)

unfoldable pub orchestration_type :
    List Entity → OrchestrationMeta → Parser → Outcome (Parser × GraphType)
unfolding entity_by_uuid output_type entity_list_type property_type
orchestration_type entities o p =
    if o.type =? TypeName.entity
    then (entity_by_uuid entities o.type_uuid >>= λ e.
        output_type p e.domain.name >>= λ t. ok (p, t))
    else if o.type =? TypeName.entity_array
    then (entity_by_uuid entities o.type_uuid >>= λ e.
        entity_list_type e p >>= λ made. ok (made.0, object made.1.name))
    else (property_type o.type >>= λ t. ok (p, t))

-- The orchestrations of a kind, in queries and in mutations.
unfoldable pub add_orchestrations :
    List Entity → String → List OrchestrationMeta → Fields → Outcome Fields
unfolding orchestration_type method_args set_field
add_orchestrations entities kind [] made = ok made
add_orchestrations entities kind (o ∷ os) made =
    if o.operate_type =? kind
    then (orchestration_type entities o made.parser >>= λ t.
        method_args entities t.0 o.args [] >>= λ args. add_orchestrations entities kind os (record {
          parser = t.0;
          fields =
              set_field
                (record { name = o.name; type = t.1; args = args; description = o.description })
                made.fields;
        }))
    else add_orchestrations entities kind os made

abbrev pub answers : String → GraphType → List InputField → Field
answers name type args = record { name = name; type = type; args = args; description = "" }

module _ (plural : String → String) where
  -- `QueryName`
  unfoldable pub query_name : Domain.Class → String
  unfolding first_lower
  query_name c = first_lower (plural c.name)

  -- `appendEntityToQueryFields`
  unfoldable pub add_entity_queries : Entity → Fields → Outcome Fields
  unfolding entity_list_type query_args output_type set_field query_name
  add_entity_queries e made = do
    l ← entity_list_type e made.parser
    out ← output_type l.0 e.domain.name
    let args = query_args l.0 e.domain.name
    ok (record {
      parser = l.0;
      fields =
          set_field (answers (query_one_name e.domain) out args)
            (set_field (answers (query_name e.domain) (object l.1.name) args) made.fields);
    })

  unfoldable pub add_queries : List Entity → Fields → Outcome Fields
  unfolding add_entity_queries
  add_queries [] made = ok made
  add_queries (e ∷ es) made =
      if e.domain.root then (add_entity_queries e made >>= add_queries es) else add_queries es made

  -- `QueryFields`
  unfoldable pub query_fields : List Entity → List OrchestrationMeta → Parser → Outcome Fields
  unfolding add_queries add_orchestrations
  query_fields es os p =
      add_queries es (record { parser = p; fields = [] }) >>= add_orchestrations es "query" os

unfoldable pub response_of : Option ObjectType → GraphType
response_of none = nil_type
response_of (some t) = object t.name

-- The field for setting, where there is something to set.
unfoldable pub add_setter : Option InputObject → Entity → Parser → List Field → Outcome (List Field)
unfolding find_key input_of response_of set_field
add_setter none e p fs = panic "nil pointer dereference"
add_setter (some o) e p fs = ok (
    if is_empty o.fields
    then fs
    else set_field
        (answers (set_name e.domain) (response_of (find_key e.domain.name p.mutation_responses)) (
          takes Consts.arg_set (non_null (input_of (some o)))
          ∷ takes Consts.arg_where (input_of (find_key e.domain.name p.where_exps))
          ∷ []))
        fs)

-- `appendEntityMutationToFields`
unfoldable pub add_entity_mutations : Entity → Fields → Outcome Fields
unfolding output_type save_input set_field find_key input_of response_of add_setter
add_entity_mutations e made = do
  let p = made.parser
  out ← output_type p e.domain.name
  fs ← add_setter (find_key e.domain.name p.set_inputs) e p (
      set_field
        (answers (upsert_one_name e.domain) out
          (takes Consts.arg_object (non_null (save_input p e)) ∷ []))
        (set_field
          (answers (upsert_name e.domain) (list_of out)
            (takes Consts.arg_objects (non_null (list_of (non_null (save_input p e)))) ∷ []))
          (set_field (answers (delete_by_id_name e.domain) out (takes Consts.id id ∷ [])) (
            set_field
              (answers (delete_name e.domain)
                (response_of (find_key e.domain.name p.mutation_responses))
                (takes Consts.arg_where (input_of (find_key e.domain.name p.where_exps)) ∷ []))
              made.fields))))
  ok (record { parser = p; fields = fs })

unfoldable pub add_mutations : List Entity → Fields → Outcome Fields
unfolding add_entity_mutations
add_mutations [] made = ok made
add_mutations (e ∷ es) made =
    if e.domain.root
    then (add_entity_mutations e made >>= add_mutations es)
    else add_mutations es made

abbrev pub uploads : List Field
uploads =
    answers "upload" string (takes "file" (non_null upload) ∷ [])
    ∷ answers "uploadZip" string
        (takes "file" (non_null upload) ∷ takes "folder" (non_null string) ∷ [])
    ∷ []

-- `mutationFields`
unfoldable pub mutation_fields : List Entity → List OrchestrationMeta → Parser → Outcome Fields
unfolding add_mutations add_orchestrations
mutation_fields es os p =
    add_mutations es (record { parser = p; fields = uploads })
    >>= add_orchestrations es "mutation" os
