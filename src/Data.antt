-- ===== src/Data.antt =====
-- model/data/: the instances that a call wants saved, with their associations, from the map that the
-- call brings. `Environment` stands for strconv.ParseUint (by base and text), the clock, and the
-- generators of UUIDs and of password hashes; `heap` holds the model's entities.
pub mod Povit
use entix.Prelude.{
  ℕ, suc, String, Bool, true, false, ◌&&◌, ◌||◌, not, List, [], ◌∷◌, ◌++◌, Option, none, some,
  Outcome, ok, panic, ◌>>=◌, get_elem?, find_first, length, leb, Value, null, str, num, bool, list,
  obj, Items, nil, item, Fields, end, field, get, is_null, ◌=?◌, ◌==◌, if◌then◌else◌,
}
use entix.Consts
use entix.Meta.TypeName
use entix.Table.{Column, Table}
use entix.Graph.{Association, Entity}
use entix.Graph.Link
use entix.Graph.Name.{table_name}
use entix.Graph.Tables.{new_entity_table, new_relation_table}

pub record Field : Type 0 where
  pub column : Column
  pub value : Value

mutual
  -- The identifier, the entity, its fields and associations, `isInsert` and the map it was made of.
  pub data Instance : Type 0 where
    instance_of : ℕ → Entity → List Field → AssociationRefs → Bool → Fields → Instance

  -- What is added, deleted, updated and synced, `Clear` and `isCascade`.
  pub data AssociationRef : Type 0 where
    association_ref :
        Association → Instances → Instances → Instances → Instances → Bool → Bool → AssociationRef

  pub data Instances : Type 0 where
    no_instance : Instances
    add_instance : Instance → Instances → Instances

  pub data AssociationRefs : Type 0 where
    no_ref : AssociationRefs
    add_ref : AssociationRef → AssociationRefs → AssociationRefs

abbrev pub id_of : Instance → ℕ
id_of (instance_of id e fs rs b m) = id

abbrev pub entity_of : Instance → Entity
entity_of (instance_of id e fs rs b m) = e

abbrev pub fields_of : Instance → List Field
fields_of (instance_of id e fs rs b m) = fs

abbrev pub refs_of : Instance → AssociationRefs
refs_of (instance_of id e fs rs b m) = rs

abbrev pub map_of : Instance → Fields
map_of (instance_of id e fs rs b m) = m

-- `len` of a map.
unfoldable pub count_fields : Fields → ℕ
count_fields end = 0
count_fields (field k v m) = suc (count_fields m)

-- `IsEmperty`, from the identifier and the map.
unfoldable pub has_id_only : ℕ → Fields → Bool
unfolding count_fields get
has_id_only id m = leb (count_fields m) 1 && (not (is_null (get m Consts.id)) || not (id == 0))

unfoldable pub is_emperty : Instance → Bool
unfolding has_id_only
is_emperty i = has_id_only (id_of i) (map_of i)

-- `AsInsert`
unfoldable pub as_insert : Instance → Instance
as_insert (instance_of id e fs rs b m) = instance_of id e fs rs true m

-- `Inserted`
unfoldable pub inserted : ℕ → Instance → Instance
inserted new (instance_of id e fs rs b m) = instance_of new e [] rs b m

-- The loop of `IsInsert`.
unfoldable pub sets_id : List Field → Bool
sets_id [] = false
sets_id (f ∷ fs) =
    let rest = sets_id fs in
    if (f.column.name =? Consts.id) && not (is_null f.value) then true else rest

unfoldable pub is_insert : Instance → Bool
unfolding sets_id
is_insert (instance_of id e fs rs b m) = b || not (sets_id fs)

-- `Table`
unfoldable pub table_of : Instance → Table
unfolding new_entity_table
table_of i = new_entity_table (entity_of i)

abbrev pub association_of : AssociationRef → Association
association_of (association_ref a added deleted updated synced clear cascade) = a

-- `Cascade`
unfoldable pub cascade : AssociationRef → Bool
unfolding Link.is_combination
cascade (association_ref a added deleted updated synced clear is_cascade) =
    Link.is_combination a || is_cascade

pub record Environment : Type 0 where
  pub parse_uint : ℕ → String → Option ℕ
  pub now : Value
  pub new_uuid : Column → String
  pub bcrypt_encode : String → String

abbrev pub to_bool : Value → Outcome Bool
to_bool (bool b) = ok b
to_bool _ = panic "interface conversion"

abbrev pub to_text : Value → Outcome String
to_text (str s) = ok s
to_text _ = panic "interface conversion"

-- `if value[key] != nil { … = value[key].(bool) }`
abbrev pub bool_or_false : Value → Outcome Bool
bool_or_false null = ok false
bool_or_false v = to_bool v

-- `v == s` on `interface{}`
abbrev pub is_text : String → Value → Bool
is_text s (str t) = t =? s
is_text s _ = false

-- `TypeEntity`
unfoldable pub type_entity : List Entity → Association → Outcome Entity
type_entity heap a = elim (get_elem? heap (Link.type_entity a).place) [
  | none ↦ panic "Can not find reference entity"
  | some e ↦ ok e
]

module _ (environment : Environment) where
  unfoldable pub parsed : Option ℕ → Outcome ℕ
  parsed none = panic "strconv.ParseUint"
  parsed (some id) = ok id

  unfoldable pub parse_id : Value → Outcome ℕ
  unfolding parsed
  parse_id (num id) = ok id
  parse_id (str s) = parsed (environment.parse_uint 0 s)
  parse_id _ = panic "unexpected id type"

  -- `ConvertId`, with base 10.
  unfoldable pub convert_id : Value → Outcome ℕ
  unfolding parsed
  convert_id (num id) = ok id
  convert_id (str s) = parsed (environment.parse_uint 10 s)
  convert_id _ = panic "interface conversion"

  -- The field of a column, if it is to be saved: a branch of the loop in `NewInstance`.
  unfoldable pub field_of : Fields → Column → Outcome (List Field)
  unfolding get
  field_of m c =
      let v = get m c.name in
      let one = λ (w : Value). record { column = c; value = w } ∷ [] in
      if c.create_date || c.update_date
      then ok (one environment.now)
      else if (c.type =? TypeName.uuid) && is_null (get m Consts.id) && c.auto_generate && is_null v
      then ok (one (str (environment.new_uuid c)))
      else if (c.type =? TypeName.password) && not (is_null v)
      then (do s ← to_text v; ok (one (str (environment.bcrypt_encode s))))
      else ok (if not (is_null v) && not (is_text Consts.id v) then one v else [])

  unfoldable pub new_fields : Fields → List Column → Outcome (List Field)
  unfolding field_of
  new_fields m [] = ok []
  new_fields m (c ∷ cs) = do fs ← field_of m c; rest ← new_fields m cs; ok (fs ++ rest)

  -- The identifier that the map brings, or 0.
  unfoldable pub given_id : Value → Outcome ℕ
  unfolding parse_id
  given_id null = ok 0
  given_id v = parse_id v

  -- The loop over the associations; `find` is the reference that the map brings for one, if any.
  unfoldable pub each_ref :
      (Association → Outcome (Option AssociationRef)) → List Association → Outcome AssociationRefs
  each_ref find [] = ok no_ref
  each_ref find (a ∷ more) = do
    r ← find a
    rest ← each_ref find more
    ok (elim r [ none ↦ rest | some ref ↦ add_ref ref rest ])

  -- `NewInstance`, from what its loop over the associations comes to.
  unfoldable pub make_instance : Entity → Fields → Outcome AssociationRefs → Outcome Instance
  unfolding given_id has_id_only new_fields new_entity_table get
  make_instance e m refs = do
    id ← given_id (get m Consts.id)
    if has_id_only id m then ok (instance_of id e [] no_ref false m) else do
      fs ← new_fields m (new_entity_table e).columns
      rs ← refs
      ok (instance_of id e fs rs false m)

  module _ (heap : List Entity) where
    unfoldable mutual
      unfolding type_entity make_instance each_ref Link.name Link.is_array

      -- `NewInstance` of a value that is asserted to be a map.
      pub to_instance : Entity → Value → Outcome Instance
      to_instance e (obj m) = make_instance e m (each_ref (λ a. find_ref a m) e.associations)
      to_instance e _ = panic "interface conversion"

      -- `object[asso.Name()]`, and `NewAssociation` of it.
      pub find_ref : Association → Fields → Outcome (Option AssociationRef)
      find_ref a end = ok none
      find_ref a (field key v m) =
          let here = to_ref a v in
          let rest = find_ref a m in if key =? Link.name a then here else rest

      pub to_ref : Association → Value → Outcome (Option AssociationRef)
      to_ref a null = ok none
      to_ref a (obj m) = bool_or_false (get m Consts.arg_clear) >>= λ clear.
          type_entity heap a >>= λ e.
          find_instances Consts.arg_delete (Link.is_array a) e m >>= λ deleted.
          find_instances Consts.arg_add (Link.is_array a) e m >>= λ added.
          find_instances Consts.arg_update (Link.is_array a) e m >>= λ updated.
          find_instances Consts.arg_sync (Link.is_array a) e m >>= λ synced.
          bool_or_false (get m Consts.arg_cascade) >>= λ is_cascade.
          ok (some (association_ref a added deleted updated synced clear is_cascade))
      to_ref a _ = panic "interface conversion"

      -- `convertToInstances` of `value[key]`.
      pub find_instances : String → Bool → Entity → Fields → Outcome Instances
      find_instances name array e end = ok no_instance
      find_instances name array e (field key v m) =
          let here = to_instances array e v in
          let rest = find_instances name array e m in if key =? name then here else rest

      -- `doConvertToInstances`
      pub to_instances : Bool → Entity → Value → Outcome Instances
      to_instances array e null = ok no_instance
      to_instances true e (list vs) = each_instance e vs
      to_instances false e (obj m) =
          make_instance e m (each_ref (λ a. find_ref a m) e.associations) >>= λ i.
          ok (add_instance i no_instance)
      to_instances _ e _ = panic "interface conversion"

      pub each_instance : Entity → Items → Outcome Instances
      each_instance e nil = ok no_instance
      each_instance e (item v vs) =
          to_instance e v >>= λ i. each_instance e vs >>= λ rest. ok (add_instance i rest)

    unfoldable pub new_instance : Fields → Entity → Outcome Instance
    unfolding to_instance
    new_instance m e = to_instance e (obj m)
