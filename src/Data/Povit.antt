-- ===== src/Data/Povit.antt =====
-- model/data/relation.go, povit.go; orm/save.go (newAssociationPovit): the row of a pivot table.
pub mod Row
use entix.Prelude.{ℕ, not, Option, find_first, ◌=?◌, if◌then◌else◌}
use entix.Table.{Column, Table}
use entix.Graph.Link
use entix.Graph.Name.{table_name}
use entix.Graph.Tables.{new_relation_table}
use entix.Data.{AssociationRef, association_of}

-- `Table`
unfoldable pub table_of : AssociationRef → Table
unfolding new_relation_table
table_of r = new_relation_table (association_of r).relation

-- The loops of `SourceColumn` and `TargetColumn`.
unfoldable pub source_column : AssociationRef → Option Column
unfolding table_of find_first table_name
source_column r =
    find_first (λ c. c.name =? table_name (association_of r).relation.source_entity.domain)
      (table_of r).columns

unfoldable pub target_column : AssociationRef → Option Column
unfolding table_of find_first table_name
target_column r =
    find_first (λ c. c.name =? table_name (association_of r).relation.target_entity.domain)
      (table_of r).columns

unfoldable pub owner_column : AssociationRef → Option Column
unfolding source_column target_column Link.is_source
owner_column r = if Link.is_source (association_of r) then source_column r else target_column r

unfoldable pub type_column : AssociationRef → Option Column
unfolding source_column target_column Link.is_source
type_column r = if not (Link.is_source (association_of r)) then source_column r else target_column r

-- A field of a pivot row; its column is nil where the search finds none.
pub record PovitField : Type 0 where
  pub column : Option Column
  pub value : ℕ

pub record AssociationPovit : Type 0 where
  pub source : PovitField
  pub target : PovitField
  pub association : AssociationRef

-- `NewAssociationPovit`
unfoldable pub make_povit : AssociationRef → ℕ → ℕ → AssociationPovit
unfolding source_column target_column
make_povit r source_id target_id = record {
  source = record { column = source_column r; value = source_id };
  target = record { column = target_column r; value = target_id };
  association = r;
}

-- `newAssociationPovit`
unfoldable pub new_association_povit : AssociationRef → ℕ → ℕ → AssociationPovit
unfolding make_povit Link.is_source
new_association_povit r owner_id tar_id =
    if not (Link.is_source (association_of r))
    then make_povit r tar_id owner_id
    else make_povit r owner_id tar_id
