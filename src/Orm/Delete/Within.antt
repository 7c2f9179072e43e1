-- ===== src/Orm/Delete/Within.antt =====
-- orm/delete.go: deleting works within the transaction that is open.
use entix.Prelude.{ℕ, zero, suc, List, [], ◌∷◌, Fields}
use entix.Db.{M}
use entix.Db.Works.{
  Works, Works->>=, Works->>, Works-if, Works-lift, Works-done_with, Works-panic_with,
}
use entix.Data.{
  Instance, AssociationRef, Instances, AssociationRefs, no_ref, add_ref, id_of, refs_of,
}
use entix.Data.Povit.{AssociationPovit}
use entix.Graph.{Entity}
use entix.Orm.Session.{Context}
use entix.Orm.Session.Within.{
  Works-exec_or_panic, Works-query_count, Works-query_associated_instances,
}
use entix.Orm.Delete.{
  each_row, delete_association_povit, delete_povit, delete_associated_instances, delete_pivot_rows,
  delete_refs, delete_instance, clear_row, clear_synced_association, clear_association,
}

pub Works-each_row :
    (act : Fields → M (Unit {0})) (rows : List Fields)
    → ((row : Fields) → Works (act row))
    → Works (each_row act rows)
unfolding each_row
Works-each_row act [] w = Works-done_with tt
Works-each_row act (row ∷ rows) w = Works->>= (w row) (λ _. Works-each_row act rows w)

module _ (x : Context) where
  pub Works-delete_association_povit :
      (r : AssociationRef) (owner_id : ℕ) → Works (delete_association_povit x r owner_id)
  unfolding delete_association_povit
  Works-delete_association_povit r owner_id = Works->>= (Works-lift _) (λ column.
      Works->>= (Works-query_count x _) (λ count.
        Works-if _ (Works->>= (Works-exec_or_panic x _) (λ _. Works-done_with tt))
          (Works-done_with tt)))

  pub Works-delete_povit : (p : AssociationPovit) → Works (delete_povit x p)
  unfolding delete_povit
  Works-delete_povit p =
      Works->>= (Works-lift _) (λ sql. Works->> (Works-exec_or_panic x sql) (Works-done_with tt))

  module _ (delete : Instance → M (Unit {0})) (w : (i : Instance) → Works (delete i)) where
    pub Works-delete_associated_instances :
        (r : AssociationRef) (owner_id : ℕ)
        → Works (delete_associated_instances x delete r owner_id)
    unfolding delete_associated_instances
    Works-delete_associated_instances r owner_id = Works->>= (Works-lift _) (λ e.
        Works->>= (Works-query_associated_instances x r owner_id)
          (λ rows. Works-each_row _ rows (λ row. Works->>= (Works-lift _) w)))

    Works-delete_pivot_rows :
        (r : AssociationRef) (e : Entity) (id : ℕ) → Works (delete_pivot_rows x r e id)
    unfolding delete_pivot_rows
    Works-delete_pivot_rows r e id =
        Works-if _ (Works-delete_association_povit r id) (Works-done_with tt)

    pub Works-delete_refs : (rs : AssociationRefs) (id : ℕ) → Works (delete_refs x delete rs id)
    unfolding delete_refs
    Works-delete_refs no_ref id = Works-done_with tt
    Works-delete_refs (add_ref r more) id =
        Works->>=
          (Works-if _
            (Works->>= (Works-lift _) (λ e.
              Works->>= (Works-delete_pivot_rows r e id)
                (λ _. Works-delete_associated_instances r id)))
            (Works-done_with tt))
          (λ _. Works-delete_refs more id)

    Works-clear_row :
        (r : AssociationRef) (synced : Instances) (row : Fields)
        → Works (clear_row x delete r synced row)
    unfolding clear_row
    Works-clear_row r synced row = Works-if _ (Works-done_with tt) (
        Works->>=
          (Works-if _ (Works->>= (Works-lift _) (λ e. Works->>= (Works-lift _) w))
            (Works-done_with tt))
          (λ _. Works->>= (Works-lift _) (Works-delete_association_povit r)))

    pub Works-clear_synced_association :
        (r : AssociationRef) (owner_id : ℕ) (synced : Instances)
        → Works (clear_synced_association x delete r owner_id synced)
    unfolding clear_synced_association
    Works-clear_synced_association r owner_id synced =
        Works->>= (Works-query_associated_instances x r owner_id)
          (λ rows. Works-each_row _ rows (Works-clear_row r synced))

    pub Works-clear_association :
        (r : AssociationRef) (owner_id : ℕ) → Works (clear_association x delete r owner_id)
    unfolding clear_association
    Works-clear_association r owner_id =
        Works->> (Works-if _ (Works-delete_associated_instances r owner_id) (Works-done_with tt))
          (Works-delete_association_povit r owner_id)

  pub Works-delete_instance : (fuel : ℕ) (i : Instance) → Works (delete_instance x fuel i)
  unfolding delete_instance
  Works-delete_instance zero i = Works-panic_with _
  Works-delete_instance (suc fuel) i = Works->> (Works-exec_or_panic x _) (
      Works-delete_refs (delete_instance x fuel) (Works-delete_instance fuel) (refs_of i) (id_of i))
