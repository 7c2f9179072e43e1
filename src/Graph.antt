-- ===== src/Graph.antt =====
-- model/graph/: entities, interfaces, relations and associations. A pointer to an entity is its
-- place among the model's entities, with the domain class that `NewEntity` gives it for good. The
-- attributes and methods of an entity or an interface are those of its domain class; the pointers
-- from an attribute to its enum, entity or value object (`makeEntity`, `makeInterface`) are left out.
-- The fields `Table` of an entity and of a relation, which the end of `New` sets, are what
-- `NewEntityTable` and `NewRelationTable` make of it: code that reads them calls these here.
pub mod Link
pub mod Inherit
pub mod Name
pub mod Tables
pub mod Build
pub mod Args
use entix.Prelude.{ℕ, String, Bool, List}
use entix.Meta.{AssociationClass}
use entix.Domain

pub record EntityRef : Type 0 where
  pub place : ℕ
  pub domain : Domain.Class

-- relation.go
pub record Relation : Type 0 where
  pub app_id : ℕ
  pub uuid : String
  pub inner_id : ℕ
  pub relation_type : String
  pub source_entity : EntityRef
  pub target_entity : EntityRef
  pub role_of_target : String
  pub role_of_source : String
  pub description_on_source : String
  pub description_on_target : String
  pub source_mutiplicity : String
  pub target_multiplicity : String
  pub enable_associaiton_class : Bool
  pub association_class : AssociationClass

-- association.go
pub record Association : Type 0 where
  pub relation : Relation
  pub owner_class_uuid : String

-- entity.go
pub record Entity : Type 0 where
  pub place : ℕ
  pub domain : Domain.Class
  pub associations : List Association
  pub interfaces : List Domain.Class

-- interface.go; the parents are interfaces.
pub record Interface : Type 0 where
  pub domain : Domain.Class
  pub children : List EntityRef
  pub parents : List Domain.Class
