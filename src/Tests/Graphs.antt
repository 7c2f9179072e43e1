-- ===== src/Tests/Graphs.antt =====
-- The theorems on the graph model and the changes of tables, at the samples.
use entix.Prelude.{
  List, All, get_elem?, true, if◌then◌else◌, some, ◌≡◌, refl, String, false, [], ◌∷◌, ◌++◌, none,
  ok, Ensures, ◌↔◌, eq_iff, arith,
}
use entix.Domain
use entix.Table.{Column, Table}
use entix.Graph.{EntityRef, Relation, Entity, Association}
use entix.Graph.Link.{is_array, name, owner, type_entity, is_1_to_n, is_n_to_1, is_combination}
use entix.Graph.Link.Ends.{at_source, at_target, ends_face}
use entix.Graph.Build.SelfRelation.{with_more, Bears, make_associations_self}
use entix.Graph.Build.{is_two_way, make_associations}
use entix.Graph.Inherit.{find_attribute, get_attribute_by_name, all_attributes}
use entix.Graph.Inherit.Attributes.{
  NodupNames, declared_by, get_attribute_by_name-declared, all_attributes-NodupNames,
}
use entix.Graph.Build
use entix.Graph.Build.Relations.{all_ends, pairs, make_relation-pairs}
use entix.Graph.Build.Wiring.{IsWired}
use entix.Graph.Build.Wiring.New.{new-IsWired}
use entix.Graph.Tables.{new_attribute_column}
use entix.Diff.{find_column, find_table, column_different, table_different, create_diff}
use entix.Diff.Columns.{Agrees, Migrates, column_different-none, table_different-Migrates}
use entix.Diff.Tables.{no_change, create_diff_self}
use entix.Tests.Samples.{user, role, base, has_roles, attribute}

unfoldable abbrev pub user_class : Domain.Class
unfolding Domain.new_class
user_class = record (Domain.new_class user) { parents = "b" ∷ [] }

unfoldable abbrev pub role_class : Domain.Class
unfolding Domain.new_class
role_class = Domain.new_class role

abbrev base_class : Domain.Class
unfolding Domain.new_class
base_class = record (Domain.new_class base) { children = "u" ∷ [] }

abbrev pub at_user : EntityRef
at_user = record { place = 0; domain = user_class }

abbrev pub at_role : EntityRef
at_role = record { place = 1; domain = role_class }

unfoldable abbrev pub drawn : Domain.Relation
unfolding Domain.new_relation
drawn = Domain.new_relation has_roles user_class role_class

abbrev domain : Domain.Model
domain = record {
  enums = [];
  classes = user_class ∷ role_class ∷ base_class ∷ [];
  relations = drawn ∷ [];
}

unfoldable abbrev pub roles : Relation
unfolding Build.new_relation
roles = Build.new_relation drawn at_user at_role

abbrev managers : Relation
unfolding Build.new_relation
managers = Build.new_relation drawn at_user at_user

abbrev user_entity : Entity
user_entity = record {
  place = 0;
  domain = user_class;
  associations = [];
  interfaces = base_class ∷ [];
}

ends_face_example :
    (owner (at_source roles) ≡ at_user)
    × (owner (at_target roles) ≡ at_role)
    × (type_entity (at_source roles) ≡ owner (at_target roles))
    × (type_entity (at_target roles) ≡ owner (at_source roles))
    × (name (at_source roles) ≡ "roles")
    × (name (at_target roles) ≡ "users")
    × (is_array (at_source roles) ≡ true)
    × (is_array (at_target roles) ≡ true)
    × (is_1_to_n (at_source roles) ≡ false)
    × (is_1_to_n (at_target roles) ≡ false)
    × (is_1_to_n (at_source roles) ≡ is_n_to_1 (at_target roles))
    × (is_1_to_n (at_target roles) ≡ is_n_to_1 (at_source roles))
    × (is_combination (at_target roles) ≡ false)
unfolding roles drawn user_class role_class
ends_face_example = ends_face roles (λ h. ground (arith, (eq_iff "u" "r").1 h))

make_associations_self_example :
    (more : List Association) × (get_elem? (make_associations managers (user_entity ∷ [])) 0
      ≡ some (with_more user_entity more))
    × (more ≡ (
        if is_two_way managers
        then at_source managers ∷ at_source managers ∷ []
        else at_source managers ∷ []))
    × All (Bears managers) more
unfolding managers drawn user_class role_class
make_associations_self_example =
    make_associations_self managers (user_entity ∷ []) user_entity refl refl

get_attribute_by_name-declared_example :
    get_attribute_by_name user_entity "createdAt"
    ≡ find_attribute "createdAt" (user_class.attributes ++ declared_by (base_class ∷ []))
get_attribute_by_name-declared_example = get_attribute_by_name-declared user_entity "createdAt"

all_attributes-NodupNames_example : NodupNames (all_attributes user_entity)
unfolding user_class find_attribute
all_attributes-NodupNames_example = all_attributes-NodupNames user_entity (refl, (refl, tt))

abbrev wired : Build.Model
wired = record (Build.start domain) { entities = user_entity ∷ Build.new_entity role_class 1 ∷ [] }

make_relation-pairs_example :
    (m : Build.Model) × (Build.make_relation drawn wired ≡ ok m)
    × (all_ends m ≡ all_ends wired ++ pairs (at_user ∷ []) (at_role ∷ []))
unfolding Build.end_entities Build.get_entity_by_uuid user_class role_class drawn
make_relation-pairs_example =
    make_relation-pairs drawn wired (at_user ∷ []) (at_role ∷ []) refl refl

new-IsWired_example : Ensures (Build.new 5 domain) IsWired
new-IsWired_example = new-IsWired 5 domain

unfoldable abbrev pub column : String → String → Column
unfolding new_attribute_column
column uuid name = new_attribute_column (attribute uuid name "String")

unfoldable abbrev pub users : Table
unfolding column
users = record {
  uuid = "u";
  name = "a7_user";
  entity_inner_id = 2;
  columns = column "a1" "id" ∷ column "a2" "name" ∷ [];
  pk_string = "";
  id_no_shift = false;
}

abbrev pub users_next : Table
users_next = record users { columns = column "a2" "login" ∷ column "a3" "email" ∷ [] }

column_different-none_example :
    (column_different (column "a1" "id") (column "a1" "key") ≡ none)
    ↔ Agrees (column "a1" "id") (column "a1" "key")
column_different-none_example = column_different-none (column "a1" "id") (column "a1" "key")

table_different-Migrates_example : Migrates users users_next "a2" (table_different users users_next)
unfolding users column find_column
table_different-Migrates_example = table_different-Migrates users users_next "a2" (refl, (refl, tt))

create_diff_self_example : create_diff (users ∷ []) (users ∷ []) ≡ no_change
unfolding users column find_column find_table
create_diff_self_example = create_diff_self (users ∷ []) (refl, (refl, (refl, tt)), tt)
