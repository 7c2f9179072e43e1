-- ===== src/Diff/Tables.antt =====
-- model/diff.go: publishing a model that has not changed.
use entix.Prelude.{
  String, ◌≡◌, refl, ◌∙◌, List, [], ◌∷◌, none, some, All, arith, eq_iff, eq_refl, ◌=?◌,
  if◌then◌else◌, Bool-cases, inl, inr,
}
use entix.Table.{Column, Table}
use entix.Diff.{
  Diff, find_table, find_column, column_different, deleted_columns, compare_column, changed_columns,
  table_different, deleted_tables, compare_table, changed_tables, create_diff,
}
use entix.Diff.Columns.{
  NodupUuids, Agrees-refl, column_different-none, find_column_here, find_column_elsewhere,
}

-- Every column is the first of its `Uuid` in `all`.
abbrev Known : List Column → List Column → Type 0
Known all = All (λ c. find_column c.uuid all ≡ some c)

Known-under :
    (x : Column) (all cs : List Column)
    → find_column x.uuid all ≡ none
    → Known all cs
    → Known (x ∷ all) cs
Known-under x all [] fresh k = tt
Known-under x all (c ∷ cs) fresh (known, k) = (
  elim (Bool-cases (x.uuid =? c.uuid)) [
    | inl same ↦ let e : x.uuid ≡ c.uuid = (eq_iff x.uuid c.uuid).0 same in cc
    | inr other ↦ find_column_elsewhere c.uuid x all other ∙ known
  ],
  Known-under x all cs fresh k,
)

Known-self : (cs : List Column) → NodupUuids cs → Known cs cs
Known-self [] nodup = tt
Known-self (c ∷ cs) (fresh, nodup) =
    (find_column_here c.uuid c cs (eq_refl c.uuid), Known-under c cs cs fresh (Known-self cs nodup))

deleted_columns-Known : (all cs : List Column) → Known all cs → deleted_columns cs all ≡ []
unfolding deleted_columns
deleted_columns-Known all [] k = refl
deleted_columns-Known all (c ∷ cs) (known, k) =
    ground (arith, known, deleted_columns-Known all cs k)

changed_columns-Known :
    (all cs : List Column)
    → Known all cs
    → changed_columns all cs ≡ record { add = []; modify = [] }
unfolding changed_columns compare_column
changed_columns-Known all [] k = refl
changed_columns-Known all (c ∷ cs) (known, k) =
    let same : column_different c c ≡ none = (column_different-none c c).1 (Agrees-refl c) in
    ground (arith, known, same, changed_columns-Known all cs k)

table_different_self : (t : Table) → NodupUuids t.columns → table_different t t ≡ none
table_different_self t nodup =
    let known = Known-self t.columns nodup in
    unfold table_different in
    ground (
      arith,
      eq_refl t.name,
      deleted_columns-Known t.columns t.columns known,
      changed_columns-Known t.columns t.columns known,
    )

-- The same for tables.
abbrev KnownTables : List Table → List Table → Type 0
KnownTables all = All (λ t. find_table t.uuid all ≡ some t)

-- The `Uuid`s of the tables differ, and so do those of the columns of each.
abbrev pub NodupTables : List Table → Type 0
NodupTables [] = Unit
NodupTables (t ∷ ts) = (find_table t.uuid ts ≡ none) × NodupUuids t.columns × NodupTables ts

find_table_cons :
    (u : String) (t : Table) (ts : List Table)
    → find_table u (t ∷ ts) ≡ (if t.uuid =? u then some t else find_table u ts)
unfolding find_table
find_table_cons u t ts = refl

KnownTables-under :
    (x : Table) (all ts : List Table)
    → find_table x.uuid all ≡ none
    → KnownTables all ts
    → KnownTables (x ∷ all) ts
KnownTables-under x all [] fresh k = tt
KnownTables-under x all (t ∷ ts) fresh (known, k) = (
  elim (Bool-cases (x.uuid =? t.uuid)) [
    | inl same ↦ let e : x.uuid ≡ t.uuid = (eq_iff x.uuid t.uuid).0 same in cc
    | inr other ↦ find_table_cons t.uuid x all ∙ rw other known
  ],
  KnownTables-under x all ts fresh k,
)

KnownTables-self : (ts : List Table) → NodupTables ts → KnownTables ts ts
KnownTables-self [] nodup = tt
KnownTables-self (t ∷ ts) (fresh, columns, nodup) = (
  find_table_cons t.uuid t ts ∙ rw (eq_refl t.uuid),
  KnownTables-under t ts ts fresh (KnownTables-self ts nodup),
)

deleted_tables_known : (all ts : List Table) → KnownTables all ts → deleted_tables ts all ≡ []
unfolding deleted_tables
deleted_tables_known all [] k = refl
deleted_tables_known all (t ∷ ts) (known, k) = ground (arith, known, deleted_tables_known all ts k)

changed_tables_known :
    (all ts : List Table)
    → KnownTables all ts
    → NodupTables ts
    → changed_tables all ts ≡ record { added = []; modified = [] }
unfolding changed_tables compare_table
changed_tables_known all [] k nodup = refl
changed_tables_known all (t ∷ ts) (known, k) (fresh, columns, nodup) =
    let same = table_different_self t columns in
    ground (arith, known, same, changed_tables_known all ts k nodup)

abbrev pub no_change : Diff
no_change = record { deleted_tables = []; added_tables = []; modified_tables = [] }

-- Publishing what is published already changes no table: if the `Uuid`s of its tables differ, and
-- those of the columns of each table do, a model has no difference from itself.
pub create_diff_self : (ts : List Table) → NodupTables ts → create_diff ts ts ≡ no_change
create_diff_self ts nodup =
    let known = KnownTables-self ts nodup in
    unfold create_diff in
    ground (arith, deleted_tables_known ts ts known, changed_tables_known ts ts known nodup)
