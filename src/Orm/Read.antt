-- ===== src/Orm/Read.antt =====
-- orm/query.go: Query and BatchRealAssociations, with the rows that the database answers.
pub mod Keeps
use entix.Prelude.{
  ℕ, String, List, [], ◌∷◌, ◌++◌, map, Option, none, some, Outcome, ok, panic, Value, null, num,
  int, Fields, end, put, is_empty, if◌then◌else◌,
}
use entix.Prelude
use entix.Consts
use entix.Meta.{AttributeMeta}
use entix.Db.{M, ◌>>=◌, done_with, panic_with, lift, catch, query}
use entix.Data.{type_entity}
use entix.Graph.{Entity, Association}
use entix.Graph.Inherit.{all_attributes}
use entix.Orm.Convert.{
  Reader, null_uint64, scan_row, convert_rows, convert_one_column_value, target_of,
}
use entix.Orm.Session.{Context, closes_nil, with_seed, first_row}
use entix.Orm.Query.{
  build_query_entity_records_sql, build_query_entity_count_sql, batch_real_associations_sql,
}

-- `QueryResponse`
abbrev pub Response : Type 0
Response = record { nodes : List Fields; total : ℕ }

-- `Scan(&count)` of the first row; without rows the count is 0.
unfoldable pub total_of : Option (List Value) → Outcome ℕ
total_of none = ok 0
total_of (some (num n ∷ [])) = ok n
total_of (some (int n ∷ [])) = ok n
total_of (some _) = panic "sql: Scan error"

-- The identifier of the owner behind the attributes of a row, 0 where it is NULL.
unfoldable pub owner_of : Value → Outcome ℕ
owner_of null = ok 0
owner_of (num n) = ok n
owner_of _ = panic "sql: Scan error"

module _ (reader : Reader) where
  -- The values of a row, the last of them the identifier of the owner.
  unfoldable pub convert_owned_values : List AttributeMeta → List Value → Fields → Outcome Fields
  unfolding convert_one_column_value target_of put owner_of
  convert_owned_values [] (v ∷ []) m =
      Prelude.◌>>=◌ (owner_of v) λ id. ok (put Consts.association_owner_id (num id) m)
  convert_owned_values (a ∷ as') (v ∷ vs) m =
      Prelude.◌>>=◌
        (convert_one_column_value reader a (record { target = target_of a; content = v }))
        λ w. convert_owned_values as' vs (put a.name w m)
  convert_owned_values _ _ m = panic "index out of range"

  unfoldable pub convert_owned_row : List AttributeMeta → List Value → Fields → Outcome Fields
  unfolding convert_owned_values scan_row target_of
  convert_owned_row attributes row m =
      Prelude.◌>>=◌ (scan_row reader (map target_of attributes ++ null_uint64 ∷ []) row)
        λ vs. convert_owned_values attributes vs m

  unfoldable pub convert_owned_rows : List AttributeMeta → List (List Value) → Outcome (List Fields)
  unfolding convert_owned_row
  convert_owned_rows attributes [] = ok []
  convert_owned_rows attributes (row ∷ rows) =
      Prelude.◌>>=◌ (convert_owned_row attributes row end)
        λ m. Prelude.◌>>=◌ (convert_owned_rows attributes rows) λ ms. ok (m ∷ ms)

module _ (x : Context) where
  -- The rows, if fields are asked for.
  unfoldable pub query_records : Entity → Fields → List AttributeMeta → M (List Fields)
  unfolding with_seed build_query_entity_records_sql convert_rows
  query_records e args fields = if is_empty fields then done_with [] else do
    q ← with_seed (build_query_entity_records_sql x.verb_d x.heap e args fields)
    rows ← catch (query x.driver q) closes_nil
    lift (convert_rows x.reader fields rows)

  unfoldable pub query_total : Entity → Fields → M ℕ
  unfolding with_seed build_query_entity_count_sql total_of
  query_total e args = do
    q ← with_seed (build_query_entity_count_sql x.heap e args)
    rows ← catch (query x.driver q) panic_with
    lift (total_of (first_row rows))

  -- `Query`
  unfoldable pub query_response : Entity → Fields → List AttributeMeta → M Response
  unfolding query_records query_total
  query_response e args fields = do
    nodes ← query_records e args fields
    total ← query_total e args
    done_with (record { nodes = nodes; total = total })

  unfoldable pub batch_real_associations : Association → List ℕ → Fields → M (List Fields)
  unfolding with_seed batch_real_associations_sql convert_owned_rows all_attributes type_entity
  batch_real_associations a ids args = do
    e ← lift (type_entity x.heap a)
    q ← with_seed (batch_real_associations_sql x.heap a e ids args)
    rows ← catch (query x.driver q) closes_nil
    lift (convert_owned_rows x.reader (all_attributes e) rows)
