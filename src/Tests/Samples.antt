-- ===== src/Tests/Samples.antt =====
-- A content with two entities, the base class of one, and an association between them.
use entix.Prelude.{ℕ, String, true, false, List, [], ◌∷◌}
use entix.Meta.{AttributeMeta, ClassMeta, RelationMeta, PackageMeta, MetaContent}
use entix.Meta.Kind
use entix.Meta.TypeName
use entix.Meta.Content
use entix.Graph.Tables.{zero_attribute}

abbrev pub attribute : String → String → String → AttributeMeta
attribute uuid name type = record zero_attribute { uuid = uuid; name = name; type = type }

abbrev pub a_class : String → ℕ → String → String → List AttributeMeta → ClassMeta
a_class uuid inner_id name stereo_type attributes = record {
  uuid = uuid;
  inner_id = inner_id;
  name = name;
  label = "";
  stereo_type = stereo_type;
  attributes = attributes;
  methods = [];
  root = true;
  description = "";
  soft_delete = false;
  system = false;
  id_no_shift = false;
  package_uuid = "";
  on_created = "";
  on_updated = "";
  on_deleted = "";
  app_id = 7;
}

abbrev pub a_relation : String → String → String → String → RelationMeta
a_relation uuid relation_type source target = record {
  uuid = uuid;
  inner_id = 9;
  relation_type = relation_type;
  source_id = source;
  target_id = target;
  role_of_target = "roles";
  role_of_source = "users";
  label_of_target = "";
  label_of_source = "";
  description_on_source = "";
  description_on_target = "";
  source_mutiplicity = Kind.zero_many;
  target_multiplicity = Kind.zero_many;
  enable_associaiton_class = false;
  association_class = record { name = ""; attributes = [] };
  system = false;
  app_id = 7;
}

abbrev pub id_attribute : AttributeMeta
id_attribute = record (attribute "a1" "id" TypeName.id) { primary = true }

abbrev pub user : ClassMeta
user = a_class "u" 2 "User" Kind.entity (id_attribute ∷ attribute "a2" "name" TypeName.string ∷ [])

abbrev pub role : ClassMeta
role = a_class "r" 3 "Role" Kind.entity (record id_attribute { uuid = "a3" } ∷ [])

abbrev pub base : ClassMeta
base =
    a_class "b" 4 "Base" Kind.abstract
      (attribute "a4" "createdAt" TypeName.date ∷ attribute "a5" "name" TypeName.string ∷ [])

abbrev pub inheritance : RelationMeta
inheritance = a_relation "i" Kind.inherit "u" "b"

abbrev pub has_roles : RelationMeta
has_roles = a_relation "x" Kind.two_way_association "u" "r"

abbrev pub a_package : PackageMeta
a_package = record {
  uuid = "p";
  name = "System";
  label = "";
  system = true;
  stereo_type = "";
  sharable = false;
}

abbrev pub content : MetaContent
content = record {
  classes = user ∷ role ∷ base ∷ [];
  relations = inheritance ∷ has_roles ∷ [];
  codes = [];
  orchestrations = [];
  packages = a_package ∷ [];
}

abbrev pub meta_model : Content.Model
meta_model = Content.assemble content 7 []
