-- ===== src/Meta.antt =====
-- model/meta/: the content of an application as it is stored (`MetaContent`), with the constants
-- that its texts are compared with. The labels, scripts and drawing data that no code reads are left
-- out: `diagrams`, `x6Nodes` and `x6Edges` of the content.
pub mod Kind
pub mod TypeName
pub mod Content
use entix.Prelude.{ℕ, String, Bool, List}

-- attributemeta.go
pub record AttributeMeta : Type 0 where
  pub uuid : String
  pub type : String
  pub primary : Bool
  pub name : String
  pub label : String
  pub nullable : Bool
  pub default : String
  pub unique : Bool
  pub index : Bool
  pub create_date : Bool
  pub update_date : Bool
  pub delete_date : Bool
  pub hidden : Bool
  pub length : ℕ
  pub float_m : ℕ
  pub float_d : ℕ
  pub unsigned : Bool
  pub type_uuid : String
  pub readonly : Bool
  pub description : String
  pub type_label : String
  pub system : Bool
  pub auto_increment : Bool
  pub auto_generate : Bool

-- methodmeta.go
pub record ArgMeta : Type 0 where
  pub uuid : String
  pub type : String
  pub name : String
  pub type_uuid : String
  pub type_label : String

pub record MethodMeta : Type 0 where
  pub uuid : String
  pub name : String
  pub label : String
  pub type : String
  pub type_uuid : String
  pub type_label : String
  pub args : List ArgMeta
  pub operate_type : String
  pub script : String
  pub description : String
  pub system : Bool

-- classmeta.go
pub record ClassMeta : Type 0 where
  pub uuid : String
  pub inner_id : ℕ
  pub name : String
  pub label : String
  pub stereo_type : String
  pub attributes : List AttributeMeta
  pub methods : List MethodMeta
  pub root : Bool
  pub description : String
  pub soft_delete : Bool
  pub system : Bool
  pub id_no_shift : Bool
  pub package_uuid : String
  pub on_created : String
  pub on_updated : String
  pub on_deleted : String
  pub app_id : ℕ

-- relationmeta.go
pub record AssociationClass : Type 0 where
  pub name : String
  pub attributes : List AttributeMeta

pub record RelationMeta : Type 0 where
  pub uuid : String
  pub inner_id : ℕ
  pub relation_type : String
  pub source_id : String
  pub target_id : String
  pub role_of_target : String
  pub role_of_source : String
  pub label_of_target : String
  pub label_of_source : String
  pub description_on_source : String
  pub description_on_target : String
  pub source_mutiplicity : String
  pub target_multiplicity : String
  pub enable_associaiton_class : Bool
  pub association_class : AssociationClass
  pub system : Bool
  pub app_id : ℕ

-- packagemeta.go, codemeta.go, orchestrationmeta.go
pub record PackageMeta : Type 0 where
  pub uuid : String
  pub name : String
  pub label : String
  pub system : Bool
  pub stereo_type : String
  pub sharable : Bool

pub record CodeMeta : Type 0 where
  pub uuid : String
  pub name : String
  pub script : String
  pub package_uuid : String

pub record OrchestrationMeta : Type 0 where
  pub uuid : String
  pub name : String
  pub label : String
  pub type : String
  pub type_uuid : String
  pub type_label : String
  pub args : List ArgMeta
  pub operate_type : String
  pub script : String
  pub description : String
  pub system : Bool

-- content.go
pub record MetaContent : Type 0 where
  pub classes : List ClassMeta
  pub relations : List RelationMeta
  pub codes : List CodeMeta
  pub orchestrations : List OrchestrationMeta
  pub packages : List PackageMeta
