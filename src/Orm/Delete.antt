-- ===== src/Orm/Delete.antt =====
-- orm/delete.go: how instances and the rows of pivot tables are deleted. The deletion of an instance
-- runs on fuel: it deletes the instances that the database associates with it in turn.
pub mod Within
pub mod Fuel
use entix.Prelude.{
  ℕ, zero, suc, String, Bool, true, false, ◌&&◌, not, List, [], ◌∷◌, Option, none, some, Value, num,
  Fields, get, ltb, ◌==◌, if◌then◌else◌, Outcome, ok, panic,
}
use entix.Consts
use entix.Db.{M, ◌>>=◌, ◌>>◌, done_with, panic_with, lift}
use entix.Data.{
  Instance, AssociationRef, Instances, no_instance, add_instance, AssociationRefs, no_ref, add_ref,
  id_of, entity_of, refs_of, association_of, type_entity, new_instance, table_of,
}
use entix.Data.Povit
use entix.Data.Povit.{AssociationPovit}
use entix.Graph.{Entity}
use entix.Graph.Link
use entix.Mysql.Change.{
  build_delete_sql, build_soft_delete_sql, build_delete_povit_sql, build_check_association_sql,
  build_clear_association_sql, column_name,
}
use entix.Orm.Session.{Context, exec_or_panic, query_count, query_associated_instances}

-- `v == id` and `v.(uint64)` on `interface{}`
abbrev pub is_id : ℕ → Value → Bool
is_id id (num n) = id == n
is_id id _ = false

abbrev pub to_id : Value → Outcome ℕ
to_id (num n) = ok n
to_id _ = panic "interface conversion"

-- The loop over the synced instances: one of them is the associated instance.
unfoldable pub is_synced : Instances → Value → Bool
is_synced no_instance v = false
is_synced (add_instance i more) v =
    let rest = is_synced more v in if not (id_of i == 0) && is_id (id_of i) v then true else rest

-- A loop over what the database associates.
unfoldable pub each_row : (Fields → M (Unit {0})) → List Fields → M (Unit {0})
each_row act [] = done_with tt
each_row act (row ∷ rows) = act row >>= λ _. each_row act rows

module _ (x : Context) where
  unfoldable pub delete_association_povit : AssociationRef → ℕ → M (Unit {0})
  unfolding query_count exec_or_panic column_name build_check_association_sql
      build_clear_association_sql Povit.type_column Povit.table_of
  delete_association_povit r owner_id = do
    column ← lift (column_name (record { column = Povit.type_column r; value = 0 }))
    count ← query_count x (build_check_association_sql owner_id (Povit.table_of r).name column)
    if ltb 0 count
        then (exec_or_panic x (build_clear_association_sql owner_id (Povit.table_of r).name column)
            >>= λ _. done_with tt)
        else done_with tt

  -- `DeleteAssociationPovit`
  unfoldable pub delete_povit : AssociationPovit → M (Unit {0})
  unfolding exec_or_panic build_delete_povit_sql
  delete_povit p = do sql ← lift (build_delete_povit_sql p); exec_or_panic x sql; done_with tt

  unfoldable pub delete_sql : Instance → String
  unfolding build_delete_sql build_soft_delete_sql table_of
  delete_sql i =
      if (entity_of i).domain.soft_delete
      then build_soft_delete_sql x.time_text (id_of i) (table_of i).name
      else build_delete_sql (id_of i) (table_of i).name

  -- `deleteAssociatedInstances`; `delete` deletes an instance.
  unfoldable pub delete_associated_instances :
      (Instance → M (Unit {0})) → AssociationRef → ℕ → M (Unit {0})
  unfolding type_entity query_associated_instances each_row new_instance
  delete_associated_instances delete r owner_id = do
    e ← lift (type_entity x.heap (association_of r))
    rows ← query_associated_instances x r owner_id
    each_row (λ row. lift (new_instance x.environment x.heap row e) >>= delete) rows

  unfoldable pub delete_pivot_rows : AssociationRef → Entity → ℕ → M (Unit {0})
  unfolding delete_association_povit
  delete_pivot_rows r e id =
      if not e.domain.soft_delete then delete_association_povit r id else done_with tt

  -- The loop of `DeleteInstance` over the associations.
  unfoldable pub delete_refs : (Instance → M (Unit {0})) → AssociationRefs → ℕ → M (Unit {0})
  unfolding delete_pivot_rows delete_associated_instances type_entity Link.is_combination
  delete_refs delete no_ref id = done_with tt
  delete_refs delete (add_ref r more) id =
      (if Link.is_combination (association_of r)
        then (lift (type_entity x.heap (association_of r)) >>= λ e.
            delete_pivot_rows r e id >>= λ _. delete_associated_instances delete r id)
        else done_with tt)
      >>= λ _. delete_refs delete more id

  unfoldable pub delete_instance : ℕ → Instance → M (Unit {0})
  unfolding delete_sql delete_refs exec_or_panic
  delete_instance zero i = panic_with "stack overflow"
  delete_instance (suc fuel) i = do
    exec_or_panic x (delete_sql i)
    delete_refs (delete_instance fuel) (refs_of i) (id_of i)

  -- The body of the loop in `clearSyncedAssociation`.
  unfoldable pub clear_row :
      (Instance → M (Unit {0})) → AssociationRef → Instances → Fields → M (Unit {0})
  unfolding is_synced type_entity new_instance delete_association_povit Link.is_combination get
  clear_row delete r synced row =
      if is_synced synced (get row Consts.id)
      then done_with tt
      else ((if Link.is_combination (association_of r)
            then (lift (type_entity x.heap (association_of r)) >>= λ e.
                lift (new_instance x.environment x.heap row e) >>= delete)
            else done_with tt)
          >>= λ _. lift (to_id (get row Consts.id)) >>= delete_association_povit r)

  unfoldable pub clear_synced_association :
      (Instance → M (Unit {0})) → AssociationRef → ℕ → Instances → M (Unit {0})
  unfolding query_associated_instances each_row clear_row
  clear_synced_association delete r owner_id synced = do
    rows ← query_associated_instances x r owner_id
    each_row (clear_row delete r synced) rows

  unfoldable pub clear_association : (Instance → M (Unit {0})) → AssociationRef → ℕ → M (Unit {0})
  unfolding delete_associated_instances delete_association_povit Link.is_combination
  clear_association delete r owner_id = do
    if Link.is_combination (association_of r)
        then delete_associated_instances delete r owner_id
        else done_with tt
    delete_association_povit r owner_id
