-- ===== src/Diff.antt =====
-- model/diff.go: what changes between the tables of the published model and those of the next one.
-- The diff's pointers to the two models, which nothing reads, are left out.
pub mod Columns
pub mod Tables
use entix.Prelude.{
  String, Bool, true, false, not, ◌||◌, List, [], ◌∷◌, Option, none, some, find_first, is_empty,
  same_bool, ◌==◌, ◌=?◌, if◌then◌else◌,
}
use entix.Table.{Column, Table}

pub record ColumnDiff : Type 0 where
  pub old_column : Column
  pub new_column : Column

pub record TableDiff : Type 0 where
  pub old_table : Table
  pub new_table : Table
  pub delete_columns : List Column
  pub add_columns : List Column
  pub modify_columns : List ColumnDiff

pub record Diff : Type 0 where
  pub deleted_tables : List Table
  pub added_tables : List Table
  pub modified_tables : List TableDiff

unfoldable pub find_table : String → List Table → Option Table
unfolding find_first
find_table uuid = find_first (λ t. t.uuid =? uuid)

unfoldable pub find_column : String → List Column → Option Column
unfolding find_first
find_column uuid = find_first (λ c. c.uuid =? uuid)

unfoldable pub column_different : Column → Column → Option ColumnDiff
column_different old new =
    let diff = some (record { old_column = old; new_column = new }) in
    if not (old.name =? new.name)
    then diff
    else if not (same_bool old.index new.index)
    then diff
    else if not (same_bool old.nullable new.nullable)
    then diff
    else if not (old.length == new.length)
    then diff
    else if not (same_bool old.primary new.primary)
    then diff
    else if not (same_bool old.unique new.unique)
    then diff
    else if not (old.type =? new.type)
    then diff
    else none

-- The first loop of `tableDifferent`: the old columns that the new table lacks.
unfoldable pub deleted_columns : List Column → List Column → List Column
unfolding find_column
deleted_columns [] new = []
deleted_columns (c ∷ cs) new = elim (find_column c.uuid new) [
  | none ↦ c ∷ deleted_columns cs new
  | some found ↦ deleted_columns cs new
]

abbrev pub Changes : Type 0
Changes = record { add : List Column; modify : List ColumnDiff }

-- What one new column adds to the two lists of the second loop.
unfoldable pub compare_column : Option Column → Column → Changes → Changes
compare_column none c rest = record { add = c ∷ rest.add; modify = rest.modify }
compare_column (some found) c rest = elim (column_different found c) [
  | none ↦ rest
  | some d ↦ record { add = rest.add; modify = d ∷ rest.modify }
]

unfoldable pub changed_columns : List Column → List Column → Changes
unfolding compare_column find_column
changed_columns old [] = record { add = []; modify = [] }
changed_columns old (c ∷ cs) = compare_column (find_column c.uuid old) c (changed_columns old cs)

unfoldable pub collect_diff : Table → Table → TableDiff
unfolding deleted_columns changed_columns
collect_diff old new =
    let changes = changed_columns old.columns new.columns in
    record {
      old_table = old;
      new_table = new;
      delete_columns = deleted_columns old.columns new.columns;
      add_columns = changes.add;
      modify_columns = changes.modify;
    }

-- The flag `modified` of the source, which is set where a list grows.
abbrev pub is_modified : TableDiff → Bool
is_modified d =
    not (is_empty d.delete_columns)
    || not (is_empty d.add_columns)
    || not (is_empty d.modify_columns)

unfoldable pub table_different : Table → Table → Option TableDiff
unfolding collect_diff
table_different old new =
    let diff = collect_diff old new in
    if not (old.name =? new.name) || is_modified diff then some diff else none

unfoldable pub deleted_tables : List Table → List Table → List Table
unfolding find_table
deleted_tables [] next = []
deleted_tables (t ∷ ts) next = elim (find_table t.uuid next) [
  | none ↦ t ∷ deleted_tables ts next
  | some found ↦ deleted_tables ts next
]

abbrev pub TableChanges : Type 0
TableChanges = record { added : List Table; modified : List TableDiff }

unfoldable pub compare_table : Option Table → Table → TableChanges → TableChanges
compare_table none t rest = record { added = t ∷ rest.added; modified = rest.modified }
compare_table (some found) t rest = elim (table_different found t) [
  | none ↦ rest
  | some d ↦ record { added = rest.added; modified = d ∷ rest.modified }
]

unfoldable pub changed_tables : List Table → List Table → TableChanges
unfolding compare_table find_table
changed_tables published [] = record { added = []; modified = [] }
changed_tables published (t ∷ ts) =
    compare_table (find_table t.uuid published) t (changed_tables published ts)

unfoldable pub create_diff : List Table → List Table → Diff
unfolding deleted_tables changed_tables
create_diff published next =
    let changes = changed_tables published next in
    record {
      deleted_tables = deleted_tables published next;
      added_tables = changes.added;
      modified_tables = changes.modified;
    }
