-- ===== src/Consts.antt =====
-- consts/consts.go: the words of the query language and of the table layout.
use entix.Prelude.{ℕ, String}

abbrev pub table_prefix : String
table_prefix = "a"

abbrev pub id : String
id = "id"

abbrev pub arg_limit : String
arg_limit = "limit"

abbrev pub arg_offset : String
arg_offset = "offset"

abbrev pub arg_orderby : String
arg_orderby = "orderBy"

abbrev pub arg_where : String
arg_where = "where"

abbrev pub arg_add : String
arg_add = "add"

abbrev pub arg_delete : String
arg_delete = "delete"

abbrev pub arg_update : String
arg_update = "update"

abbrev pub arg_sync : String
arg_sync = "sync"

abbrev pub arg_cascade : String
arg_cascade = "cascade"

abbrev pub arg_clear : String
arg_clear = "clear"

abbrev pub arg_and : String
arg_and = "_and"

abbrev pub arg_not : String
arg_not = "_not"

abbrev pub arg_or : String
arg_or = "_or"

abbrev pub arg_eq : String
arg_eq = "_eq"

abbrev pub arg_gt : String
arg_gt = "_gt"

abbrev pub arg_gte : String
arg_gte = "_gte"

abbrev pub arg_in : String
arg_in = "_in"

abbrev pub arg_isnull : String
arg_isnull = "_isNull"

abbrev pub arg_lt : String
arg_lt = "_lt"

abbrev pub arg_lte : String
arg_lte = "_lte"

abbrev pub arg_noteq : String
arg_noteq = "_notEq"

abbrev pub arg_notin : String
arg_notin = "_notIn"

abbrev pub arg_ilike : String
arg_ilike = "_iLike"

abbrev pub arg_like : String
arg_like = "_like"

abbrev pub arg_notilike : String
arg_notilike = "_notILike"

abbrev pub arg_notlike : String
arg_notlike = "_notLike"

abbrev pub arg_notregex : String
arg_notregex = "_notRegexp"

abbrev pub arg_regex : String
arg_regex = "_regexp"

abbrev pub pivot : String
pivot = "pivot"

abbrev pub index_suffix : String
index_suffix = "_idx"

abbrev pub deleted_at : String
deleted_at = "deletedAt"

abbrev pub association_owner_id : String
association_owner_id = "owner__rx__id"

abbrev pub bool_exp : String
bool_exp = "BoolExp"

abbrev pub orderby : String
orderby = "OrderBy"

abbrev pub distinct_exp : String
distinct_exp = "DistinctExp"

abbrev pub mutation_response : String
mutation_response = "MutationResponse"

abbrev pub response_returning : String
response_returning = "returning"

abbrev pub response_affectedrows : String
response_affectedrows = "affectedRows"

abbrev pub arg_count : String
arg_count = "count"

abbrev pub arg_columns : String
arg_columns = "columns"

abbrev pub arg_distinct : String
arg_distinct = "distinct"

abbrev pub arg_distincton : String
arg_distincton = "distinctOn"

abbrev pub nodes : String
nodes = "nodes"

abbrev pub total : String
total = "total"

abbrev pub aggregate : String
aggregate = "aggregate"

abbrev pub fields : String
fields = "Fields"

abbrev pub input : String
input = "Input"

abbrev pub set_input : String
set_input = "Set"

abbrev pub has_many : String
has_many = "HasMany"

abbrev pub has_one : String
has_one = "HasOne"

abbrev pub set : String
set = "set"

abbrev pub guest_role_id : ℕ
guest_role_id = 1

abbrev pub arg_object : String
arg_object = "object"

abbrev pub arg_objects : String
arg_objects = "objects"

abbrev pub arg_set : String
arg_set = "set"
