-- ===== src/Orm/Migrate/Rollback.antt =====
-- orm/migrate.go: what a migration has sent when it ends.
use mathlib.Core.List.{append-nil}
use mathlib.Core.Path.{subst}
use entix.Prelude.{
  ◌≡◌, refl, sym, ap, ◌∙◌, String, List, [], ◌∷◌, ◌++◌, map, Option, none, some, Option-cases, inl,
  inr,
}
use entix.Diff.{TableDiff}
use entix.Mysql.Migration.{ModifyAtom, build_modify_table_atoms}
use entix.Orm.Migrate.{Run, Step, done, failed, and_then, labelled, each, exec, modify_table}

abbrev pub executed : List ModifyAtom → List String
executed = map (λ a. a.excute_sql)

abbrev pub undone : List ModifyAtom → List String
undone = map (λ a. a.undo_sql)

pub append_assoc : (xs ys zs : List String) → (xs ++ ys) ++ zs ≡ xs ++ (ys ++ zs)
append_assoc [] ys zs = refl
append_assoc (x ∷ xs) ys zs = cc (append_assoc xs ys zs)

module _ (answer : List String → String → Option String) where
  -- The database accepts all the statements, one after the other.
  abbrev pub Accepted : List String → List ModifyAtom → Type 0
  Accepted h [] = Unit
  Accepted h (a ∷ as') = (answer h a.excute_sql ≡ none) × Accepted (h ++ a.excute_sql ∷ []) as'

  -- The run ends behind the first statement that is refused, or behind the last.
  abbrev pub Ends : Run → List ModifyAtom → List ModifyAtom → Step → Type 0
  Ends r before [] (done u) =
      (u.history ≡ r.history ++ executed before) × (u.undo_list ≡ r.undo_list ++ undone before)
  Ends r before (a ∷ more) (failed u message) =
      (u.history ≡ (r.history ++ executed before) ++ a.excute_sql ∷ [])
      × (u.undo_list ≡ r.undo_list ++ undone before)
      × ((m : String) × (answer (r.history ++ executed before) a.excute_sql ≡ some m))
  Ends r before rest s = ⊥

  abbrev pub Went : Run → List ModifyAtom → Step → Type 0
  Went r all s =
      (before : List ModifyAtom) × (rest : List ModifyAtom) × (all ≡ before ++ rest)
      × Accepted r.history before
      × Ends r before rest s

  pub Went-exec : (a : ModifyAtom) (r : Run) → Went r (a ∷ []) (exec answer a r)
  unfolding exec
  Went-exec a r = elim (Option-cases (answer r.history a.excute_sql)) [
    | inl good ↦ (a ∷ [], [], refl, (good, tt), rw (Ends, good) (refl, refl))
    | inr (m, bad) ↦ (
      [],
      a ∷ [],
      refl,
      tt,
      rw (Ends, bad)
          (
            ap (λ g. g ++ a.excute_sql ∷ []) (sym (append-nil r.history)),
            sym (append-nil r.undo_list),
            (m, ap (λ g. answer g a.excute_sql) (append-nil r.history) ∙ bad),
          ),
    )
  ]

  Went-end : (r : Run) → Went r [] (done r)
  Went-end r = ([], [], refl, tt, (sym (append-nil r.history), sym (append-nil r.undo_list)))

  pub Went-label :
      (r : Run) (all : List ModifyAtom) (word : String) (s : Step)
      → Went r all s
      → Went r all (labelled word s)
  Went-label r all word (done u) w = w
  Went-label r all word (failed u m) (before, [], e, acc, ends) = elim ends [ ]
  Went-label r all word (failed u m) (before, a ∷ more, e, acc, ends) =
      (before, a ∷ more, e, acc, ends)

  executed-append : (xs ys : List ModifyAtom) → executed (xs ++ ys) ≡ executed xs ++ executed ys
  executed-append [] ys = refl
  executed-append (x ∷ xs) ys = cc (executed-append xs ys)

  undone-append : (xs ys : List ModifyAtom) → undone (xs ++ ys) ≡ undone xs ++ undone ys
  undone-append [] ys = refl
  undone-append (x ∷ xs) ys = cc (undone-append xs ys)

  Accepted-append :
      (h : List String) (xs ys : List ModifyAtom)
      → Accepted h xs
      → Accepted (h ++ executed xs) ys
      → Accepted h (xs ++ ys)
  Accepted-append h [] ys p q = subst (λ g. Accepted g ys) (append-nil h) q
  Accepted-append h (x ∷ xs) ys (good, p) q = (
    good,
    Accepted-append (h ++ x.excute_sql ∷ []) xs ys p
        (subst (λ g. Accepted g ys) (sym (append_assoc h (x.excute_sql ∷ []) (executed xs))) q),
  )

  -- What follows a run that is done, seen from its beginning.
  along :
      (r u : Run) (before more : List ModifyAtom)
      → u.history ≡ r.history ++ executed before
      → u.history ++ executed more ≡ r.history ++ executed (before ++ more)
  along r u before more h =
      ap (λ g. g ++ executed more) h
      ∙ append_assoc r.history (executed before) (executed more)
      ∙ ap (λ x. r.history ++ x) (sym (executed-append before more))

  along_undo :
      (r u : Run) (before more : List ModifyAtom)
      → u.undo_list ≡ r.undo_list ++ undone before
      → u.undo_list ++ undone more ≡ r.undo_list ++ undone (before ++ more)
  along_undo r u before more k =
      ap (λ g. g ++ undone more) k
      ∙ append_assoc r.undo_list (undone before) (undone more)
      ∙ ap (λ x. r.undo_list ++ x) (sym (undone-append before more))

  Ends-shift :
      (r u : Run) (before more rest : List ModifyAtom) (s : Step)
      → u.history ≡ r.history ++ executed before
      → u.undo_list ≡ r.undo_list ++ undone before
      → Ends u more rest s
      → Ends r (before ++ more) rest s
  Ends-shift r u before more [] (done v) h k (p, q) =
      (p ∙ along r u before more h, q ∙ along_undo r u before more k)
  Ends-shift r u before more (a ∷ rest) (failed v m) h k (p, q, (n, bad)) = (
    p ∙ ap (λ g. g ++ a.excute_sql ∷ []) (along r u before more h),
    q ∙ along_undo r u before more k,
    (n, sym (ap (λ g. answer g a.excute_sql) (along r u before more h)) ∙ bad),
  )
  Ends-shift r u before more [] (failed v m) h k e = elim e [ ]
  Ends-shift r u before more (a ∷ rest) (done v) h k e = elim e [ ]

  atoms_assoc : (xs ys zs : List ModifyAtom) → (xs ++ ys) ++ zs ≡ xs ++ (ys ++ zs)
  atoms_assoc [] ys zs = refl
  atoms_assoc (x ∷ xs) ys zs = cc (atoms_assoc xs ys zs)

  pub Went-and_then :
      (r : Run) (xs ys : List ModifyAtom) (s : Step) (next : Run → Step)
      → Went r xs s
      → ((u : Run) → Went u ys (next u))
      → Went r (xs ++ ys) (and_then s next)
  Went-and_then r xs ys (done u) next (before, [], e, acc, (h, k)) w =
      let (more, rest, f, acc', ends) = w u in
      (
        before ++ more,
        rest,
        ap (λ l. l ++ ys) (e ∙ append-nil before)
            ∙ ap (λ l. before ++ l) f
            ∙ sym (atoms_assoc before more rest),
        Accepted-append r.history before more acc (subst (λ g. Accepted g more) h acc'),
        Ends-shift r u before more rest (next u) h k ends,
      )
  Went-and_then r xs ys (failed u m) next (before, a ∷ rest, e, acc, ends) w =
      (before, a ∷ rest ++ ys, ap (λ l. l ++ ys) e ∙ atoms_assoc before (a ∷ rest) ys, acc, ends)
  Went-and_then r xs ys (done u) next (before, a ∷ rest, e, acc, ends) w = elim ends [ ]
  Went-and_then r xs ys (failed u m) next (before, [], e, acc, ends) w = elim ends [ ]

-- The atoms of a list of changes, one after the other.
abbrev pub atoms_of {ℓ} : {A : Type ℓ} → (A → List ModifyAtom) → List A → List ModifyAtom
atoms_of f [] = []
atoms_of f (a ∷ more) = f a ++ atoms_of f more

module _ (answer : List String → String → Option String) where
  pub Went-each {ℓ} :
      {A : Type ℓ} (f : A → List ModifyAtom) (act : A → Run → Step)
      → ((a : A) (r : Run) → Went answer r (f a) (act a r))
      → (more : List A) (r : Run) → Went answer r (atoms_of f more) (each act more r)
  unfolding each
  Went-each f act w [] r = Went-end answer r
  Went-each f act w (a ∷ more) r =
      Went-and_then answer r (f a) (atoms_of f more) (act a r) (each act more) (w a r)
        (λ u. Went-each f act w more u)

  all_atoms : (xs : List ModifyAtom) → atoms_of (λ a. a ∷ []) xs ≡ xs
  all_atoms [] = refl
  all_atoms (x ∷ xs) = cc (all_atoms xs)

  pub Went-modify_table :
      (d : TableDiff) (r : Run)
      → Went answer r (build_modify_table_atoms d) (modify_table answer d r)
  unfolding modify_table
  Went-modify_table d r =
      subst (λ xs. Went answer r xs (each (exec answer) (build_modify_table_atoms d) r))
        (all_atoms (build_modify_table_atoms d))
        (Went-each (λ a. a ∷ []) (exec answer) (Went-exec answer) (build_modify_table_atoms d) r)
