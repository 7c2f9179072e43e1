-- ===== src/Diff/Columns.antt =====
-- model/diff.go: the columns of a table before and after a change.
use entix.Prelude.{
  String, find_first, ◌≡◌, refl, ◌↔◌, Bool, true, false, List, [], ◌∷◌, Option, none, some, is_some,
  not, ◌&&◌, sym, ap, ◌∙◌, arith, eq_iff, ◌=?◌, if◌then◌else◌, Bool-cases, Option-cases, inl, inr,
}
use mathlib.Core.Path.{subst, subst⁻¹}
use mathlib.Core.Option
use entix.Table.{Column, Table}
use entix.Diff.{
  ColumnDiff, TableDiff, find_column, column_different, deleted_columns, compare_column,
  changed_columns, collect_diff, is_modified, table_different,
}

-- What the comparison looks at.
pub record Agrees (old new : Column) : Type 0 where
  pub name : old.name ≡ new.name
  pub type : old.type ≡ new.type
  pub length : old.length ≡ new.length
  pub index : old.index ≡ new.index
  pub nullable : old.nullable ≡ new.nullable
  pub primary : old.primary ≡ new.primary
  pub unique : old.unique ≡ new.unique

-- Two columns make no difference exactly if they have the same name, type, length, index,
-- nullability, primary key and uniqueness. So a column that only becomes unsigned, or that only
-- changes its digits, makes none.
pub column_different-none : (old new : Column) → (column_different old new ≡ none) ↔ Agrees old new
unfolding column_different
column_different-none old new = (
  λ h. ground (arith, eq_iff old.name new.name, eq_iff old.type new.type),
  λ a. ground (arith, eq_iff old.name new.name, eq_iff old.type new.type),
)

find-deleted_columns :
    (u : String) (old new : List Column)
    → find_column u (deleted_columns old new)
      ≡ (if is_some (find_column u new) then none else find_column u old)
unfolding deleted_columns find_column
find-deleted_columns u [] new = ground arith
find-deleted_columns u (c ∷ cs) new = ground (arith, eq_iff c.uuid u, find-deleted_columns u cs new)

find-added_columns :
    (u : String) (old new : List Column)
    → find_column u (changed_columns old new).add
      ≡ (if is_some (find_column u old) then none else find_column u new)
unfolding changed_columns
find-added_columns u old [] = unfold find_column in ground arith
find-added_columns u old (c ∷ cs) =
    unfold find_column in ground (arith, eq_iff c.uuid u, find-added_columns u old cs)

pub find_change : String → List ColumnDiff → Option ColumnDiff
unfolding find_first
find_change u = find_first (λ d. d.new_column.uuid =? u)

-- The `Uuid`s of the columns differ.
abbrev pub NodupUuids : List Column → Type 0
NodupUuids [] = Unit
NodupUuids (c ∷ cs) = (find_column c.uuid cs ≡ none) × NodupUuids cs

abbrev change_between : Option Column → Option Column → Option ColumnDiff
change_between none new = none
change_between (some o) none = none
change_between (some o) (some n) = column_different o n

column_different-some :
    (o n : Column) (d : ColumnDiff)
    → column_different o n ≡ some d
    → (d.old_column ≡ o) × (d.new_column ≡ n)
unfolding column_different
column_different-some o n d h = ground arith

change_between-none : (o : Option Column) → change_between o none ≡ none
change_between-none none = refl
change_between-none (some o) = refl

find_change-compare_column :
    (u : String) (old : Option Column) (c : Column) (adds : List Column) (rest : List ColumnDiff)
    → find_change u (compare_column old c (record { add = adds; modify = rest })).modify ≡ (
        if c.uuid =? u && is_some (change_between old (some c))
        then change_between old (some c)
        else find_change u rest)
unfolding compare_column find_change
find_change-compare_column u none c adds rest = ground arith
find_change-compare_column u (some o) c adds rest = elim (Option-cases (column_different o c)) [
  | inl same ↦ ground (arith, same)
  | inr (d, differ) ↦ ground (arith, differ, column_different-some o c d differ)
]

settle_here :
    (b : Bool) (x y : Option ColumnDiff)
    → b ≡ true
    → y ≡ none
    → (if b && is_some x then x else y) ≡ x
settle_here b none y e h = ground arith
settle_here b (some d) y e h = ground arith

settle_elsewhere :
    (b : Bool) (x y : Option ColumnDiff) → b ≡ false → (if b && is_some x then x else y) ≡ y
settle_elsewhere b x y e = rw e

step_change :
    (u : String) (old : List Column) (c : Column) (cs : List Column)
    → find_change u (changed_columns old (c ∷ cs)).modify
      ≡ find_change u (compare_column (find_column c.uuid old) c (changed_columns old cs)).modify
unfolding changed_columns
step_change u old c cs = refl

pub find_column_here :
    (u : String) (c : Column) (cs : List Column)
    → (c.uuid =? u) ≡ true
    → find_column u (c ∷ cs) ≡ some c
unfolding find_column
find_column_here u c cs h = rw h

pub find_column_elsewhere :
    (u : String) (c : Column) (cs : List Column)
    → (c.uuid =? u) ≡ false
    → find_column u (c ∷ cs) ≡ find_column u cs
unfolding find_column
find_column_elsewhere u c cs h = rw h

find_change-changed_columns :
    (u : String) (old new : List Column)
    → NodupUuids new
    → find_change u (changed_columns old new).modify
      ≡ change_between (find_column u old) (find_column u new)
find_change-changed_columns u old [] nodup =
    unfold changed_columns find_change in sym (change_between-none (find_column u old))
find_change-changed_columns u old (c ∷ cs) (fresh, nodup) =
    let rest = changed_columns old cs in
    let ih = find_change-changed_columns u old cs nodup in
    let head = find_change-compare_column u (find_column c.uuid old) c rest.add rest.modify in
    elim (Bool-cases (c.uuid =? u)) [
      | inl here ↦
          let same : c.uuid ≡ u = (eq_iff c.uuid u).0 here in
          let last : find_change u rest.modify ≡ none =
            ih
            ∙ ap (change_between (find_column u old))
                (subst (λ v. find_column v cs ≡ none) same fresh)
            ∙ change_between-none (find_column u old) in
          step_change u old c cs
          ∙ head
          ∙ settle_here (c.uuid =? u) (change_between (find_column c.uuid old) (some c)) _ here last
          ∙ ap (λ v. change_between (find_column v old) (some c)) same
          ∙ ap (change_between (find_column u old)) (sym (find_column_here u c cs here))
      | inr elsewhere ↦
          step_change u old c cs
          ∙ head
          ∙ settle_elsewhere (c.uuid =? u) (change_between (find_column c.uuid old) (some c)) _
              elsewhere
          ∙ ih
          ∙ ap (change_between (find_column u old)) (sym (find_column_elsewhere u c cs elsewhere))
    ]

-- The column of a `Uuid` after a change: added, or modified, or else kept unless it is deleted.
pub migrated : TableDiff → String → Option Column
migrated d u =
    if is_some (find_column u d.add_columns)
    then find_column u d.add_columns
    else if is_some (find_change u d.modify_columns)
    then Option.map (λ c. c.new_column) (find_change u d.modify_columns)
    else if is_some (find_column u d.delete_columns)
    then none
    else find_column u d.old_table.columns

-- The column is there where it is wanted, as far as the comparison looks.
abbrev pub Reaches : Option Column → Option Column → Type 0
Reaches none none = Unit
Reaches none (some w) = ⊥
Reaches (some c) none = ⊥
Reaches (some c) (some w) = Agrees c w

pub Agrees-refl : (c : Column) → Agrees c c
Agrees-refl c = record {
  name = refl;
  type = refl;
  length = refl;
  index = refl;
  nullable = refl;
  primary = refl;
  unique = refl;
}

-- From the values that a search finds in the old and the new columns.
Reaches-cases :
    (old new : Option Column)
    → Reaches
        (if is_some (if is_some old then none else new)
          then (if is_some old then none else new)
          else if is_some (change_between old new)
          then Option.map (λ c. c.new_column) (change_between old new)
          else if is_some (if is_some new then none else old)
          then none
          else old)
        new
Reaches-cases none none = tt
Reaches-cases none (some n) = Agrees-refl n
Reaches-cases (some o) none = tt
Reaches-cases (some o) (some n) = elim (Option-cases (column_different o n)) [
  | inl same ↦ rw same ((column_different-none o n).0 same)
  | inr (d, differ) ↦
      rw differ (subst⁻¹ (λ c. Agrees c n) (column_different-some o n d differ).1 (Agrees-refl n))
]

migrated-collect_diff :
    (old new : Table) (u : String)
    → NodupUuids new.columns
    → Reaches (migrated (collect_diff old new) u) (find_column u new.columns)
migrated-collect_diff old new u nodup =
    let o = find_column u old.columns in
    let n = find_column u new.columns in
    unfold migrated collect_diff in
    rw
      (
        find-added_columns u old.columns new.columns,
        find_change-changed_columns u old.columns new.columns nodup,
        find-deleted_columns u old.columns new.columns,
      )
      (Reaches-cases o n)

migrated_unmodified :
    (d : TableDiff) (u : String)
    → is_modified d ≡ false
    → migrated d u ≡ find_column u d.old_table.columns
unfolding migrated find_column find_change
migrated_unmodified d u h = ground arith

-- What a comparison of two tables promises of the column of a `Uuid`.
abbrev pub Migrates : Table → Table → String → Option TableDiff → Type 0
Migrates old new u none =
    (old.name ≡ new.name) × Reaches (find_column u old.columns) (find_column u new.columns)
Migrates old new u (some d) = Reaches (migrated d u) (find_column u new.columns)

-- If the `Uuid`s of the new columns differ, the changes that are found turn the old columns into the
-- new ones: for every `Uuid` there is a column afterwards if and only if the new table has one, and
-- it agrees with it in all that is compared. Where no difference is found, the tables have one name
-- and their columns agree so already.
pub table_different-Migrates :
    (old new : Table) (u : String)
    → NodupUuids new.columns
    → Migrates old new u (table_different old new)
unfolding table_different
table_different-Migrates old new u nodup = elim (Bool-cases (not (old.name =? new.name))) [
  | inl renamed ↦ rw renamed (migrated-collect_diff old new u nodup)
  | inr kept ↦ elim (Bool-cases (is_modified (collect_diff old new))) [
    | inl changed ↦ rw (kept, changed) (migrated-collect_diff old new u nodup)
    | inr same ↦
        rw (kept, same)
          (
            ground (arith, eq_iff old.name new.name),
            subst (λ c. Reaches c (find_column u new.columns))
                (migrated_unmodified (collect_diff old new) u same)
                (migrated-collect_diff old new u nodup),
          )
  ]
]
