-- ===== src/Orm/Save.antt =====
-- orm/save.go: how an instance is saved with all that is associated with it.
pub mod Within
use entix.Prelude.{
  ℕ, String, ◌<>◌, Bool, true, false, not, List, [], ◌∷◌, Option, none, some, Value, num, Fields,
  is_empty, ◌==◌, if◌then◌else◌, Outcome,
}
use entix.Db.{State, M, ◌>>=◌, ◌>>◌, done_with, panic_with, lift, catch, exec, query}
use entix.Data.{
  Instance, instance_of, AssociationRef, association_ref, Instances, no_instance, add_instance,
  AssociationRefs, no_ref, add_ref, id_of, entity_of, fields_of, is_emperty, is_insert, table_of,
  cascade, map_of,
}
use entix.Data.Povit.{AssociationPovit, new_association_povit}
use entix.Graph.{Entity}
use entix.Mysql.Change.{
  build_insert_sql, build_update_sql, build_insert_povit_sql, build_check_povit_sql,
  build_query_povit_sql,
}
use entix.Orm.Convert.{make_field_values}
use entix.Orm.Session.{Context, exec_or_panic, query_count, query_one_by_id, no_args, closes_nil}
use entix.Orm.Delete.{delete_instance, delete_povit, clear_association, clear_synced_association}

-- `if !rows.Next()`
abbrev pub found_none {κ} : {A : Type κ} → List A → Bool
found_none = is_empty

-- `len(…) == 0`
abbrev pub no_instances : Instances → Bool
no_instances no_instance = true
no_instances (add_instance i more) = false

abbrev pub must_exist : Option Fields → M (Unit {0})
must_exist none = panic_with "Update instance is not exist"
must_exist (some m) = done_with tt

module _ (x : Context) where
  unfoldable pub insert_one_body : Instance → M ℕ
  unfolding build_insert_sql make_field_values table_of
  insert_one_body i = do
    values ← lift (make_field_values x.marshal x.save_file (fields_of i))
    result ←
        catch
          (exec x.driver
            (record { sql = build_insert_sql (fields_of i) (table_of i); args = values }))
          panic_with
    lift result

  -- `associate` saves the associations of an instance, by its identifier.
  unfoldable pub insert_one : Instance → (ℕ → M (Unit {0})) → M ℕ
  unfolding insert_one_body
  insert_one i associate = do id ← insert_one_body i; associate id; done_with id

  unfoldable pub update_one_body : Instance → M (Unit {0})
  unfolding build_update_sql make_field_values table_of
  update_one_body i = do
    sql ← lift (build_update_sql (id_of i) (fields_of i) (table_of i))
    values ← lift (make_field_values x.marshal x.save_file (fields_of i))
    result ← exec x.driver (record { sql = sql; args = values })
    done_with tt

  unfoldable pub update_one : Instance → (ℕ → M (Unit {0})) → M ℕ
  unfolding query_one_by_id update_one_body
  update_one i associate = do
    row ← query_one_by_id x (entity_of i) (num (id_of i))
    must_exist row
    update_one_body i
    associate (id_of i)
    done_with (id_of i)

  unfoldable pub povit_exists : AssociationPovit → M Bool
  unfolding query_count build_check_povit_sql
  povit_exists p = do
    sql ← lift (build_check_povit_sql p)
    count ← query_count x sql
    done_with (not (count == 0))

  unfoldable pub save_association_povit : AssociationPovit → M (Unit {0})
  unfolding exec_or_panic build_query_povit_sql build_insert_povit_sql
  save_association_povit p = do
    sql ← lift (build_query_povit_sql p)
    rows ← catch (query x.driver (no_args sql)) closes_nil
    if found_none rows
        then (lift (build_insert_povit_sql p) >>= λ insert.
            exec_or_panic x insert >>= λ _. done_with tt)
        else done_with tt

  -- What follows the saving of an associated instance, by its identifier; the message is for 0.
  unfoldable pub associate_povit : String → AssociationRef → ℕ → ℕ → M (Unit {0})
  unfolding povit_exists save_association_povit new_association_povit
  associate_povit message r owner_id id =
      if id == 0
      then panic_with message
      else (povit_exists (new_association_povit r owner_id id) >>= λ exists.
          if exists
          then done_with tt
          else save_association_povit (new_association_povit r owner_id id))

  -- `saveAssociationInstance`, where an error is raised; `save` is `SaveOne` of the instance.
  unfoldable pub save_association_instance : Instance → M ℕ → M ℕ
  unfolding is_emperty
  save_association_instance i save =
      if is_emperty i
      then done_with (id_of i)
      else catch save (λ message. panic_with ("Save Association error:" <> message))

  -- The loop over `Deleted`.
  unfoldable pub delete_each : ℕ → AssociationRef → ℕ → Instances → M (Unit {0})
  unfolding delete_instance delete_povit cascade new_association_povit
  delete_each fuel r owner_id no_instance = done_with tt
  delete_each fuel r owner_id (add_instance i more) =
      (if cascade r
        then delete_instance x fuel i
        else delete_povit x (new_association_povit r owner_id (id_of i)))
      >>= λ _. delete_each fuel r owner_id more

  -- `SaveAssociation`, from what its loops over the instances come to.
  unfoldable pub choose :
      ℕ → AssociationRef → ℕ → M (Unit {0}) → M (Unit {0}) → M (Unit {0}) → M (Unit {0})
  unfolding clear_association clear_synced_association delete_each delete_instance
  choose fuel (association_ref a added deleted updated synced clear is_cascade) owner_id save_added
        save_updated save_synced =
      let r = association_ref a added deleted updated synced clear is_cascade in
      if clear
      then clear_association x (delete_instance x fuel) r owner_id
      else if not (no_instances synced)
      then clear_synced_association x (delete_instance x fuel) r owner_id synced >> save_synced
      else delete_each fuel r owner_id deleted >> save_added >> save_updated

  unfoldable mutual
    unfolding insert_one update_one associate_povit save_association_instance choose is_insert

    -- `SaveOne`
    pub save_one : ℕ → Instance → M ℕ
    save_one fuel (instance_of id e fs rs inserts m) =
        let i = instance_of id e fs rs inserts m in
        if is_insert i
        then insert_one i (λ owner_id. save_associations fuel rs owner_id)
        else update_one i (λ owner_id. save_associations fuel rs owner_id)

    pub save_associations : ℕ → AssociationRefs → ℕ → M (Unit {0})
    save_associations fuel no_ref owner_id = done_with tt
    save_associations fuel (add_ref r more) owner_id =
        save_association fuel r owner_id >>= λ _. save_associations fuel more owner_id

    pub save_association : ℕ → AssociationRef → ℕ → M (Unit {0})
    save_association fuel (association_ref a added deleted updated synced clear is_cascade)
          owner_id =
        let r = association_ref a added deleted updated synced clear is_cascade in
        choose fuel r owner_id
          (save_instances "Save Association error, id is 0" fuel r owner_id added)
          (save_instances "Save Association error" fuel r owner_id updated)
          (save_instances "Save Association error" fuel r owner_id synced)

    -- The loop over `Added`, and `saveAssociationInstances`.
    pub save_instances : String → ℕ → AssociationRef → ℕ → Instances → M (Unit {0})
    save_instances message fuel r owner_id no_instance = done_with tt
    save_instances message fuel r owner_id (add_instance i more) =
        save_association_instance i (save_one fuel i) >>= λ id.
        associate_povit message r owner_id id >>= λ _. save_instances message fuel r owner_id more
