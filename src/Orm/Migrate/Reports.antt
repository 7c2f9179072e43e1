-- ===== src/Orm/Migrate/Reports.antt =====
-- orm/migrate.go: `Migrage` from its first statement to its last.
use mathlib.Core.List.{append-nil}
use entix.Prelude.{ℕ, ◌≡◌, refl, sym, ap, ◌∙◌, String, List, [], ◌∷◌, ◌++◌, Option, none, some}
use entix.Table.{Table}
use entix.Diff.{TableDiff, Diff}
use entix.Mysql.Migration.{ModifyAtom, build_modify_table_atoms}
use entix.Orm.Migrate.{
  Run, Step, done, failed, and_then, Report, rollback, conclude, each, drop, create, delete_table,
  create_table, modify_table, migrage, delete_tables, create_tables, modify_tables, change_all,
}
use entix.Orm.Migrate.Rollback.{
  executed, undone, Accepted, Went, Went-exec, Went-label, Went-and_then, Went-each,
  Went-modify_table, atoms_of, append_assoc,
}

rollback-append :
    (undo_list history : List String) → rollback undo_list history ≡ history ++ undo_list
unfolding rollback
rollback-append [] history = sym (append-nil history)
rollback-append (u ∷ us) history =
    rollback-append us (history ++ u ∷ []) ∙ append_assoc history (u ∷ []) us

module _ (format : String → String) (service : ℕ) where
  -- The statements of all changes: of the deleted tables, the added and the modified.
  abbrev pub changes : Diff → List ModifyAtom
  changes d =
      atoms_of (λ t. drop format service t ∷ []) d.deleted_tables
      ++ (atoms_of (λ t. create format service t ∷ []) d.added_tables
          ++ atoms_of build_modify_table_atoms d.modified_tables)

module _ (answer : List String → String → Option String) where
  -- After the accepted changes `before`, and with `rest` to come.
  abbrev pub Reported : List String → List ModifyAtom → List ModifyAtom → Report → Type 0
  Reported h before [] report = (report.history ≡ h ++ executed before) × (report.panicked ≡ none)
  Reported h before (a ∷ more) report =
      (report.history ≡ ((h ++ executed before) ++ a.excute_sql ∷ []) ++ undone before)
      × ((m : String) × (report.panicked ≡ some m))
      × ((m : String) × (answer (h ++ executed before) a.excute_sql ≡ some m))

  conclude-Reported :
      (h : List String) (all : List ModifyAtom) (s : Step)
      → Went answer (record { history = h; undo_list = [] }) all s
      → (before : List ModifyAtom) × (rest : List ModifyAtom) × (all ≡ before ++ rest)
        × Accepted answer h before
        × Reported h before rest (conclude s)
  conclude-Reported h all (done u) (before, [], e, acc, (p, q)) = (before, [], e, acc, (p, refl))
  conclude-Reported h all (failed u m) (before, a ∷ more, e, acc, (p, q, bad)) = (
    before,
    a ∷ more,
    e,
    acc,
    (
      rollback-append u.undo_list u.history
          ∙ ap (λ g. g ++ u.undo_list) p
          ∙ ap (λ us. ((h ++ executed before) ++ a.excute_sql ∷ []) ++ us) q,
      (m, refl),
      bad,
    ),
  )
  conclude-Reported h all (done u) (before, a ∷ more, e, acc, ends) = elim ends [ ]
  conclude-Reported h all (failed u m) (before, [], e, acc, ends) = elim ends [ ]

  module _ (format : String → String) (service : ℕ) where
    Went-delete_tables :
        (ts : List Table) (r : Run)
        → Went answer r
            (atoms_of (λ t. drop format service t ∷ []) ts)
            (delete_tables answer format service ts r)
    unfolding delete_tables
    Went-delete_tables ts r =
        Went-label answer r (atoms_of (λ t. drop format service t ∷ []) ts) "Delete table error:"
          (each (delete_table answer format service) ts r)
          (Went-each answer (λ t. drop format service t ∷ []) (delete_table answer format service)
            (λ t u. unfold delete_table in Went-exec answer (drop format service t) u) ts r)

    Went-create_tables :
        (ts : List Table) (r : Run)
        → Went answer r
            (atoms_of (λ t. create format service t ∷ []) ts)
            (create_tables answer format service ts r)
    unfolding create_tables
    Went-create_tables ts r =
        Went-label answer r (atoms_of (λ t. create format service t ∷ []) ts) "Create table error:"
          (each (create_table answer format service) ts r)
          (Went-each answer (λ t. create format service t ∷ []) (create_table answer format service)
            (λ t u. unfold create_table in Went-exec answer (create format service t) u) ts r)

    Went-modify_tables :
        (ds : List TableDiff) (r : Run)
        → Went answer r
            (atoms_of build_modify_table_atoms ds)
            (modify_tables answer format service ds r)
    unfolding modify_tables
    Went-modify_tables ds r =
        Went-label answer r (atoms_of build_modify_table_atoms ds) "Modify table error:"
          (each (modify_table answer) ds r)
          (Went-each answer build_modify_table_atoms (modify_table answer)
            (Went-modify_table answer) ds r)

    Went-change_all :
        (d : Diff) (r : Run)
        → Went answer r (changes format service d) (change_all answer format service d r)
    unfolding change_all
    Went-change_all d r =
        let added = atoms_of (λ t. create format service t ∷ []) d.added_tables in
        let modified = atoms_of build_modify_table_atoms d.modified_tables in
        let modify = modify_tables answer format service d.modified_tables in
        Went-and_then answer r (atoms_of (λ t. drop format service t ∷ []) d.deleted_tables)
          (added ++ modified) (delete_tables answer format service d.deleted_tables r)
          (λ u. and_then (create_tables answer format service d.added_tables u) modify)
          (Went-delete_tables d.deleted_tables r)
          (λ u.
            Went-and_then answer u added modified
              (create_tables answer format service d.added_tables u) modify
              (Went-create_tables d.added_tables u) (Went-modify_tables d.modified_tables))

  -- The changes split where a statement is refused.
  abbrev pub Sends : (format : String → String) (service : ℕ) → Diff → List String → Report → Type 0
  Sends format service d h report =
      (before : List ModifyAtom) × (rest : List ModifyAtom) × (changes format service d
        ≡ before ++ rest)
      × Accepted answer h before
      × Reported h before rest report

  -- What a migration comes to, from the error of `Open`, if any.
  abbrev pub Ends :
      (format : String → String) (service : ℕ)
      → Option String
      → Diff
      → List String
      → Report
      → Type 0
  Ends format service none d h report = Sends format service d h report
  Ends format service (some error) d h report =
      (report.history ≡ h) × (report.panicked ≡ some "nil pointer dereference")

  -- Where no session can be opened, a migration sends nothing and panics at the nil session, before
  -- the error is looked at. Otherwise it sends the statements of the deleted, the added and the modified
  -- tables, in this order, until one is refused. If none is, they are all that it sends, and it returns.
  -- If one is refused, it sends the undo statements of all those accepted before, the oldest first, and
  -- panics.
  pub migrage-Reported :
      (format : String → String) (service : ℕ) (opens : Option String) (d : Diff) (h : List String)
      → Ends format service opens d h (migrage answer format service opens d h)
  unfolding migrage
  migrage-Reported format service none d h =
      let r : Run = record { history = h; undo_list = [] } in
      conclude-Reported h (changes format service d) (change_all answer format service d r)
        (Went-change_all format service d r)
  migrage-Reported format service (some error) d h = (refl, refl)
