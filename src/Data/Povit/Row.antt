-- ===== src/Data/Povit/Row.antt =====
-- model/data/povit.go, orm/save.go: which identifier stands in which column of a pivot row.
use entix.Prelude.{
  ℕ, ◌≡◌, refl, String, Bool, true, false, not, Option, none, some, ◌⊎◌, inl, inr, Bool-cases, ◌=?◌,
  eq_iff, eq_refl, find_first, if◌then◌else◌,
}
use entix.Table.{Column}
use entix.Graph.{EntityRef}
use entix.Graph.Link
use entix.Graph.Name.{table_name}
use entix.Graph.Tables.{new_relation_table, end_column}
use entix.Data.{AssociationRef, association_of}
use entix.Data.Povit.{
  AssociationPovit, PovitField, source_column, target_column, new_association_povit,
}

abbrev HasName : String → Option Column → Type 0
HasName name none = ⊥
HasName name (some c) = c.name ≡ name

-- The field stands for a column of that name, and has the value.
abbrev pub Holds : PovitField → String → ℕ → Type 0
Holds f name id = (c : Column) × (f.column ≡ some c) × (c.name ≡ name) × (f.value ≡ id)

-- A field of the row does.
abbrev pub Says : AssociationPovit → String → ℕ → Type 0
Says p name id = Holds p.source name id ⊎ Holds p.target name id

Holds-HasName :
    (o : Option Column) (name : String) (id : ℕ)
    → HasName name o
    → Holds (record { column = o; value = id }) name id
Holds-HasName none name id h = absurd h
Holds-HasName (some c) name id h = (c, refl, h, refl)

module _ (r : AssociationRef) where
  source_column-HasName :
      HasName (table_name (association_of r).relation.source_entity.domain) (source_column r)
  unfolding source_column new_relation_table end_column find_first
  source_column-HasName =
      rw (eq_refl (table_name (association_of r).relation.source_entity.domain)) refl

  target_column-HasName :
      HasName (table_name (association_of r).relation.target_entity.domain) (target_column r)
  unfolding target_column new_relation_table end_column find_first
  target_column-HasName =
      let source = table_name (association_of r).relation.source_entity.domain in
      let target = table_name (association_of r).relation.target_entity.domain in
      elim (Bool-cases (source =? target)) [
        | inl e ↦ rw e ((eq_iff source target).0 e)
        | inr e ↦ rw (e, eq_refl target) refl
      ]

  -- The two branches, whatever decides between them.
  either_end :
      (b : Bool) (name_of : EntityRef → String) (source target : EntityRef)
      (source_col target_col : Option Column) (owner_id tar_id : ℕ)
      → HasName (name_of source) source_col
      → HasName (name_of target) target_col
      → let row = λ (i j : ℕ).
        let p : AssociationPovit = record {
          source = record { column = source_col; value = i };
          target = record { column = target_col; value = j };
          association = r;
        } in
        p in
        let chosen = if not b then row tar_id owner_id else row owner_id tar_id in
        Says chosen (name_of (if b then source else target)) owner_id
        × Says chosen (name_of (if not b then source else target)) tar_id
  either_end true name_of source target sc tc owner_id tar_id hs ht =
      (inl (Holds-HasName sc _ owner_id hs), inr (Holds-HasName tc _ tar_id ht))
  either_end false name_of source target sc tc owner_id tar_id hs ht =
      (inr (Holds-HasName tc _ owner_id ht), inl (Holds-HasName sc _ tar_id hs))

  -- Whichever end of the relation owns the association, the row that is made for an owner and a target
  -- holds the owner's identifier in the column of the owner's table, and the target's in that of
  -- the table of the associated entity.
  pub new_association_povit-Says :
      (owner_id tar_id : ℕ)
      → Says
          (new_association_povit r owner_id tar_id)
          (table_name (Link.owner (association_of r)).domain)
          owner_id
        × Says
            (new_association_povit r owner_id tar_id)
            (table_name (Link.type_entity (association_of r)).domain)
            tar_id
  unfolding new_association_povit Link.owner Link.type_entity
  new_association_povit-Says owner_id tar_id =
      either_end (Link.is_source (association_of r)) (λ e. table_name e.domain)
        (association_of r).relation.source_entity (association_of r).relation.target_entity
        (source_column r) (target_column r) owner_id tar_id source_column-HasName
        target_column-HasName
