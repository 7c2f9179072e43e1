-- ===== src/Orm/Save/Within.antt =====
-- orm/save.go: saving works within the transaction that is open.
use entix.Prelude.{ℕ, String, not, Option, none, some, Fields, num}
use entix.Db.{M}
use entix.Db.Works.{
  Works, Works->>=, Works->>, Works-if, Works-lift, Works-done_with, Works-panic_with, Works-catch,
  Works-exec,
}
use entix.Data.{
  Instance, instance_of, AssociationRef, association_ref, Instances, no_instance, add_instance,
  AssociationRefs, no_ref, add_ref, id_of, entity_of, is_insert,
}
use entix.Data.Povit.{AssociationPovit, new_association_povit}
use entix.Orm.Session.{Context}
use entix.Orm.Session.Within.{
  Works-exec_or_panic, Works-query_count, Works-query_closing, Works-query_one_by_id,
}
use entix.Orm.Delete.{delete_instance}
use entix.Orm.Delete.Within.{
  Works-delete_instance, Works-delete_povit, Works-clear_association,
  Works-clear_synced_association,
}
use entix.Orm.Save.{
  insert_one_body, insert_one, update_one_body, update_one, must_exist, no_instances, povit_exists,
  save_association_povit, associate_povit, save_association_instance, delete_each, choose, save_one,
  save_associations, save_association, save_instances,
}

module _ (x : Context) where
  Works-insert_one :
      (i : Instance) (associate : ℕ → M (Unit {0}))
      → ((id : ℕ) → Works (associate id))
      → Works (insert_one x i associate)
  unfolding insert_one insert_one_body
  Works-insert_one i associate w =
      Works->>=
        (Works->>= (Works-lift _)
          (λ values. Works->>= (Works-catch (Works-exec x.driver _) Works-panic_with) Works-lift))
        (λ id. Works->> (w id) (Works-done_with id))

  Works-must_exist : (row : Option Fields) → Works (must_exist row)
  Works-must_exist none = Works-panic_with _
  Works-must_exist (some m) = Works-done_with tt

  Works-update_one :
      (i : Instance) (associate : ℕ → M (Unit {0}))
      → ((id : ℕ) → Works (associate id))
      → Works (update_one x i associate)
  unfolding update_one update_one_body
  Works-update_one i associate w =
      Works->>= (Works-query_one_by_id x (entity_of i) (num (id_of i))) (λ row.
        Works->> (Works-must_exist row) (
          Works->>
            (Works->>= (Works-lift _) (λ sql.
              Works->>= (Works-lift _)
                (λ values. Works->>= (Works-exec x.driver _) (λ result. Works-done_with tt))))
            (Works->> (w _) (Works-done_with _))))

  Works-povit_exists : (p : AssociationPovit) → Works (povit_exists x p)
  unfolding povit_exists
  Works-povit_exists p =
      Works->>= (Works-lift _)
        (λ sql. Works->>= (Works-query_count x sql) (λ count. Works-done_with _))

  Works-save_association_povit : (p : AssociationPovit) → Works (save_association_povit x p)
  unfolding save_association_povit
  Works-save_association_povit p = Works->>= (Works-lift _) (λ sql.
      Works->>= (Works-query_closing x _) (λ rows.
        Works-if _
          (Works->>= (Works-lift _)
            (λ insert. Works->>= (Works-exec_or_panic x insert) (λ _. Works-done_with tt)))
          (Works-done_with tt)))

  Works-associate_povit :
      (message : String) (r : AssociationRef) (owner_id id : ℕ)
      → Works (associate_povit x message r owner_id id)
  unfolding associate_povit
  Works-associate_povit message r owner_id id = Works-if _ (Works-panic_with _) (
      Works->>= (Works-povit_exists (new_association_povit r owner_id id)) (λ exists.
        Works-if exists (Works-done_with tt)
          (Works-save_association_povit (new_association_povit r owner_id id))))

  Works-save_association_instance :
      (i : Instance) (save : M ℕ) → Works save → Works (save_association_instance x i save)
  unfolding save_association_instance
  Works-save_association_instance i save w =
      Works-if _ (Works-done_with _) (Works-catch w (λ message. Works-panic_with _))

  Works-delete_each :
      (fuel : ℕ) (r : AssociationRef) (owner_id : ℕ) (is : Instances)
      → Works (delete_each x fuel r owner_id is)
  unfolding delete_each
  Works-delete_each fuel r owner_id no_instance = Works-done_with tt
  Works-delete_each fuel r owner_id (add_instance i more) =
      Works->>=
        (Works-if _ (Works-delete_instance x fuel i)
          (Works-delete_povit x (new_association_povit r owner_id (id_of i))))
        (λ _. Works-delete_each fuel r owner_id more)

  Works-choose :
      (fuel : ℕ) (r : AssociationRef) (owner_id : ℕ)
      (save_added save_updated save_synced : M (Unit {0}))
      → Works save_added
      → Works save_updated
      → Works save_synced
      → Works (choose x fuel r owner_id save_added save_updated save_synced)
  unfolding choose
  Works-choose fuel (association_ref a added deleted updated synced clear is_cascade) owner_id sa su
        ss wa wu ws =
      let r = association_ref a added deleted updated synced clear is_cascade in
      let delete = delete_instance x fuel in
      let w = Works-delete_instance x fuel in
      Works-if clear (Works-clear_association x delete w r owner_id) (
        Works-if (not (no_instances synced))
          (Works->> (Works-clear_synced_association x delete w r owner_id synced) ws)
          (Works->> (Works->> (Works-delete_each fuel r owner_id deleted) wa) wu))

  mutual
    unfolding save_one

    save_one-Works : (fuel : ℕ) (i : Instance) → Works (save_one x fuel i)
    save_one-Works fuel (instance_of id e fs rs inserts m) =
        let i = instance_of id e fs rs inserts m in
        Works-if (is_insert i)
          (Works-insert_one i _ (λ owner_id. save_associations-Works fuel rs owner_id))
          (Works-update_one i _ (λ owner_id. save_associations-Works fuel rs owner_id))

    save_associations-Works :
        (fuel : ℕ) (rs : AssociationRefs) (owner_id : ℕ)
        → Works (save_associations x fuel rs owner_id)
    save_associations-Works fuel no_ref owner_id = Works-done_with tt
    save_associations-Works fuel (add_ref r more) owner_id =
        Works->>= (save_association-Works fuel r owner_id)
          (λ _. save_associations-Works fuel more owner_id)

    save_association-Works :
        (fuel : ℕ) (r : AssociationRef) (owner_id : ℕ) → Works (save_association x fuel r owner_id)
    save_association-Works fuel (association_ref a added deleted updated synced clear is_cascade)
          owner_id =
        let r = association_ref a added deleted updated synced clear is_cascade in
        Works-choose fuel r owner_id _ _ _ (save_instances-Works _ fuel r owner_id added)
          (save_instances-Works _ fuel r owner_id updated)
          (save_instances-Works _ fuel r owner_id synced)

    save_instances-Works :
        (message : String) (fuel : ℕ) (r : AssociationRef) (owner_id : ℕ) (is : Instances)
        → Works (save_instances x message fuel r owner_id is)
    save_instances-Works message fuel r owner_id no_instance = Works-done_with tt
    save_instances-Works message fuel r owner_id (add_instance i more) =
        Works->>= (Works-save_association_instance i _ (save_one-Works fuel i)) (λ id.
          Works->>= (Works-associate_povit message r owner_id id)
            (λ _. save_instances-Works message fuel r owner_id more))

  pub Works-save_one : (fuel : ℕ) (i : Instance) → Works (save_one x fuel i)
  Works-save_one fuel i = save_one-Works fuel i
