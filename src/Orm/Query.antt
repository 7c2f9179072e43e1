-- ===== src/Orm/Query.antt =====
-- orm/query.go: the statements of a query from the arguments of a call. `seed` is the counter of the
-- session's `CreateId`. `verb_d` is what `fmt.Sprintf` writes for `%d` and a value that is no
-- number.
pub mod Arguments
use entix.Prelude.{
  ℕ, String, ◌<>◌, List, Option, none, some, Outcome, ok, ◌>>=◌, show, Value, null, num, int, obj,
  Fields, get, is_empty, ◌=?◌, if◌then◌else◌,
}
use entix.Consts
use entix.Meta.{AttributeMeta}
use entix.Graph.{Association, Entity}
use entix.Graph.Link
use entix.Graph.Name.{table_name}
use entix.Graph.Tables.{relation_table_name}
use entix.Graph.Inherit.{all_attributes}
use entix.Graph.Args.{ArgEntity, build_arg_entity}
use entix.Mysql.Where.{Exp, build_where_sql}
use entix.Mysql.Select.{
  build_query_count_sql_body, build_query_sql_body, build_order_by_sql,
  build_batch_association_body_sql,
}

-- A statement, and the counter behind it.
abbrev pub Statement : Type 0
Statement = record { exp : Exp; seed : ℕ }

-- `if where, ok := whereArgs.(graph.QueryArg); ok`
abbrev pub where_of : Value → Option Fields
where_of (obj m) = some m
where_of _ = none

-- The condition is added behind a word, if there is one.
unfoldable pub add_where : String → String → ArgEntity → Value → Outcome Exp
unfolding build_where_sql
add_where word body t where_args = do
  w ← build_where_sql t (where_of where_args)
  ok (record { text = if w.text =? "" then body else body <> (word <> w.text); params = w.params })

unfoldable pub build_query_entity_sql : Fields → Value → ArgEntity → String → Outcome Exp
unfolding add_where build_order_by_sql get
build_query_entity_sql args where_args t body = do
  e ← add_where " WHERE " body t where_args
  order ← build_order_by_sql t (get args Consts.arg_orderby)
  ok (record { text = e.text <> order; params = e.params })

module _ (verb_d : Value → String) where
  unfoldable pub decimal : Value → String
  decimal (num n) = show n
  decimal (int n) = show n
  decimal v = verb_d v

  -- `LIMIT` and `OFFSET`
  unfoldable pub add_number : String → Value → String → String
  unfolding decimal
  add_number word null s = s
  add_number word v s = s <> (word <> (decimal v <> " "))

  module _ (heap : List Entity) where
    unfoldable pub build_query_entity_records_sql :
        Entity → Fields → List AttributeMeta → ℕ → Outcome Statement
    unfolding build_arg_entity build_query_sql_body build_query_entity_sql add_number get
    build_query_entity_records_sql e args attributes seed = do
      built ← build_arg_entity heap e (get args Consts.arg_where) seed
      exp ←
          build_query_entity_sql args (get args Consts.arg_where) built.tree
            (build_query_sql_body built.tree attributes)
      ok (record {
        exp = record {
          text =
              add_number " OFFSET " (get args Consts.arg_offset)
                (add_number " LIMIT " (get args Consts.arg_limit) exp.text);
          params = exp.params;
        };
        seed = built.seed;
      })

module _ (heap : List Entity) where
  unfoldable pub build_query_entity_count_sql : Entity → Fields → ℕ → Outcome Statement
  unfolding build_arg_entity build_query_count_sql_body build_query_entity_sql get
  build_query_entity_count_sql e args seed = do
    built ← build_arg_entity heap e (get args Consts.arg_where) seed
    exp ←
        build_query_entity_sql args (get args Consts.arg_where) built.tree
          (build_query_count_sql_body built.tree)
    ok (record { exp = exp; seed = built.seed })

  -- `BatchRealAssociations` up to its query; the type entity comes with the association.
  unfoldable pub batch_real_associations_sql :
      Association → Entity → List ℕ → Fields → ℕ → Outcome Statement
  unfolding build_arg_entity add_where build_batch_association_body_sql build_order_by_sql get
      relation_table_name table_name all_attributes Link.owner Link.type_entity
  batch_real_associations_sql a e ids args seed = do
    built ← build_arg_entity heap e (get args Consts.arg_where) seed
    exp ←
        add_where " AND "
          (build_batch_association_body_sql built.tree (all_attributes e)
            (relation_table_name a.relation) (table_name (Link.owner a).domain)
            (table_name (Link.type_entity a).domain) ids)
          built.tree (get args Consts.arg_where)
    order ← build_order_by_sql built.tree (get args Consts.arg_orderby)
    ok (record {
      exp = record { text = exp.text <> order; params = exp.params };
      seed = built.seed;
    })

-- The two statements of a query; without fields only the rows are counted.
abbrev pub Statements : Type 0
Statements = record { records : Option Exp; count : Exp; seed : ℕ }

module _ (verb_d : Value → String) (heap : List Entity) where
  -- The statement for the rows, if fields are asked for.
  unfoldable pub records_of :
      Entity → Fields → List AttributeMeta → ℕ → Outcome (record { records : Option Exp; seed : ℕ })
  unfolding build_query_entity_records_sql
  records_of e args fields seed =
      if is_empty fields
      then ok (record { records = none; seed = seed })
      else (build_query_entity_records_sql verb_d heap e args fields seed >>= λ s.
          ok (record { records = some s.exp; seed = s.seed }))

  -- `Session.Query` up to what the database answers.
  unfoldable pub query : Entity → Fields → List AttributeMeta → ℕ → Outcome Statements
  unfolding records_of build_query_entity_count_sql
  query e args fields seed = do
    r ← records_of e args fields seed
    c ← build_query_entity_count_sql heap e args r.seed
    ok (record { records = r.records; count = c.exp; seed = c.seed })
