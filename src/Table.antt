-- ===== src/Table.antt =====
-- model/table/: tables and columns.
use entix.Prelude.{ℕ, String, Bool, List}
use entix.Meta.{AttributeMeta}

-- column.go
pub record Column : Type 0 where
  pub attribute : AttributeMeta
  pub open attribute use *
  pub key : Bool

-- table.go
pub record Table : Type 0 where
  pub uuid : String
  pub name : String
  pub entity_inner_id : ℕ
  pub columns : List Column
  pub pk_string : String
  pub id_no_shift : Bool
