-- ===== src/Tests/Changes.antt =====
-- The theorems on saving and deleting, at the samples.
use entix.Prelude.{
  List, Value, ◌≡◌, refl, true, false, [], ◌∷◌, none, some, ok, panic, join, str, num, list, obj,
  nil, item, Fields, end, field,
}
use entix.Db.{panics, error, State, Driver, accepted}
use entix.Data.{Environment, Instance, instance_of, no_ref}
use entix.Orm.Session.{Context}
use entix.Service.Change.{save, save_single, delete_each, delete_instances, delete_single}
use entix.Data
use entix.Data.{association_ref, add_instance, no_instance, AssociationRef, association_of}
use entix.Data.Povit.{new_association_povit}
use entix.Data.Povit.Row.{Says, new_association_povit-Says}
use entix.Graph.Link
use entix.Graph.Name.{table_name}
use entix.Graph.Inherit.{all_attributes}
use entix.Graph.Tables.{new_entity_table}
use entix.Mysql.Where.Marks.{marks}
use entix.Mysql.Change.{build_insert_sql, build_update_sql, update_set_fields, set_fields}
use entix.Mysql.Change.Columns.{build_insert_sql-fills}
use entix.Orm.Convert.{make_field_values, make_field_value, convert_row, target_of, scan, Reader}
use entix.Orm.Convert.Fits.{Readable, Reads, convert_row_total}
use entix.Orm.Convert.Panics.{OrPanics, convert_row-Readable}
use entix.Orm.Delete.{delete_instance}
use entix.Orm.Delete.Fuel.{delete_instance-enough}
use entix.Utils.Names.{snake_string}
use entix.Tests.Graphs.{user_class, role_class, roles, drawn}
use entix.Tests.Samples.{attribute}
use entix.Service.Change.Refused.{changes-refused}
use entix.Service.Change.Atomic.{Atomic}
use entix.Service.Change.Atomic.Calls.{changes-Atomic, saves, saves_one, deletes_one}
use entix.Tests.Queries.{heap, verb_d, role}

-- A server that accepts everything and has no rows.
abbrev driver : Driver
driver = record {
  opens = none;
  begins = λ _. none;
  executes = λ _ _. accepted (ok 9);
  reads = λ _ _. ok [];
  commits = λ _. none;
  keeps = λ _. false;
  rolls_back = λ _. none;
  closes = none;
}

abbrev environment : Environment
environment = record {
  parse_uint = λ base text. some 7;
  now = str "now";
  new_uuid = λ c. "uuid";
  bcrypt_encode = λ s. s;
}

-- Null types take what they are given, and a JSON is the object without fields.
abbrev pub reader : Reader
reader = record { scan_null = λ t v. ok v; unmarshal = λ text. ok end; decode = λ v. ok v }

abbrev pub context : Context
context = record {
  driver = driver;
  environment = environment;
  heap = heap;
  time_text = "now";
  verb_d = verb_d;
  marshal = λ v. ok v;
  save_file = λ v. ok v;
  reader = reader;
}

abbrev pub start : State
start = record { stored = []; live = 0; opened_db = false; db = false; tx = none; id_seed = 0 }

-- A user Ann with a new role.
abbrev ann : Fields
ann = field "name" (str "Ann") (
    field "roles" (obj (field "add" (list (item (obj (field "name" (str "Admin") end)) nil)) end))
      end)

abbrev saved_role : Instance
saved_role = instance_of 4 role [] no_ref false (field "id" (num 4) end)

changes-Atomic_example :
    Atomic context
      (saves context 2 (saved_role ∷ []))
      start
      (save context 2 (saved_role ∷ []) start)
    × Atomic context (saves_one context 2 saved_role) start (save_single context 2 saved_role start)
    × Atomic context
        (delete_each context 2 (saved_role ∷ []))
        start
        (delete_instances context 2 (saved_role ∷ []) start)
    × Atomic context
        (deletes_one context 2 saved_role)
        start
        (delete_single context 2 saved_role start)
changes-Atomic_example = changes-Atomic context 2 saved_role (saved_role ∷ []) start

-- The same server, where no transaction can be begun.
abbrev refusing : Context
refusing = record context { driver = record driver { begins = λ _. some "too many connections" } }

abbrev opened : State
opened = record start { opened_db = true }

changes-refused_example :
    ((save refusing 2 (saved_role ∷ []) opened).0 ≡ panics "Not init connection with tx")
    × ((save_single refusing 2 saved_role opened).0 ≡ panics "Not init connection with tx")
    × ((delete_instances refusing 2 (saved_role ∷ []) opened).0 ≡ error "too many connections")
    × ((delete_single refusing 2 saved_role opened).0 ≡ error "too many connections")
    × ((save refusing 2 (saved_role ∷ []) opened).1.stored ≡ [])
    × ((save_single refusing 2 saved_role opened).1.stored ≡ [])
    × ((delete_instances refusing 2 (saved_role ∷ []) opened).1.stored ≡ [])
    × ((delete_single refusing 2 saved_role opened).1.stored ≡ [])
changes-refused_example =
    changes-refused refusing 2 saved_role (saved_role ∷ []) opened "too many connections" refl refl

-- The user's roles, one added.
abbrev roles_of_ann : AssociationRef
roles_of_ann =
    association_ref (record { relation = roles; owner_class_uuid = "u" })
      (add_instance saved_role no_instance) no_instance no_instance no_instance false false

new_association_povit-Says_example :
    Says
      (new_association_povit roles_of_ann 9 4)
      (table_name (Link.owner (association_of roles_of_ann)).domain)
      9
    × Says
        (new_association_povit roles_of_ann 9 4)
        (table_name (Link.type_entity (association_of roles_of_ann)).domain)
        4
new_association_povit-Says_example = new_association_povit-Says roles_of_ann 9 4

abbrev name_field : Data.Field
name_field = record {
  column = record { attribute = attribute "n" "name" "String"; key = false };
  value = str "Admin";
}

build_insert_sql-fills_example :
    ((marks (build_insert_sql (name_field ∷ []) (new_entity_table role)) ≡ 1)
      × (marks "UPDATE `a7_role` SET name=? WHERE ID = 4" ≡ 1))
    × (build_update_sql 4 [] (new_entity_table role) ≡ panic "No update fields")
unfolding make_field_values make_field_value build_update_sql update_set_fields set_fields join
    new_entity_table table_name role_class snake_string
build_insert_sql-fills_example =
    build_insert_sql-fills (λ v. ok v) (λ v. ok v) 4 (name_field ∷ []) (new_entity_table role) refl
      (refl, tt)

delete_instance-enough_example :
    delete_instance context 7 saved_role ≡ delete_instance context 2 saved_role
unfolding all_attributes Link.name Link.is_source roles drawn user_class role_class
delete_instance-enough_example =
    delete_instance-enough context saved_role 5 (((refl, (refl, tt)), tt), (tt, tt))

convert_row_total_example :
    Reads
      (all_attributes role)
      (str "Admin" ∷ [])
      end
      (convert_row reader (all_attributes role) (str "Admin" ∷ []) end)
unfolding all_attributes role_class scan target_of
convert_row_total_example =
    convert_row_total reader (all_attributes role) (str "Admin" ∷ []) (str "Admin" ∷ []) end
      (tt, tt) (refl, λ k. (str "Admin", refl), tt)

convert_row-Readable_example :
    OrPanics
      (λ _. (ws : List Value) × Readable reader (all_attributes role) (str "Admin" ∷ []) ws)
      (convert_row reader (all_attributes role) (str "Admin" ∷ []) end)
convert_row-Readable_example =
    convert_row-Readable reader (all_attributes role) (str "Admin" ∷ []) end
