-- ===== src/Graph/Name.antt =====
-- model/graph/class.go, entity.go: the names that are made from a class's name. `QueryName` is left
-- out: its plural is a package's.
use entix.Prelude.{String, ◌<>◌, show, ◌==◌, if◌then◌else◌}
use entix.Consts
use entix.Domain
use entix.Utils.Names.{first_upper, first_lower, snake_string}

unfoldable pub table_name : Domain.Class → String
unfolding snake_string show
table_name c =
    let name = snake_string c.name in
    if c.app_id == 1 then name else Consts.table_prefix <> (show c.app_id <> ("_" <> name))

abbrev pub query_one_name : Domain.Class → String
query_one_name c = "one" <> first_upper c.name

abbrev pub query_aggregate_name : Domain.Class → String
query_aggregate_name c = first_lower c.name <> first_upper "aggregate"

abbrev pub delete_name : Domain.Class → String
delete_name c = "delete" <> first_upper c.name

abbrev pub delete_by_id_name : Domain.Class → String
delete_by_id_name c = "delete" <> (first_upper c.name <> "ById")

abbrev pub set_name : Domain.Class → String
set_name c = "set" <> first_upper c.name

abbrev pub upsert_name : Domain.Class → String
upsert_name c = "upsert" <> first_upper c.name

abbrev pub upsert_one_name : Domain.Class → String
upsert_one_name c = "upsertOne" <> first_upper c.name

abbrev pub aggregate_name : Domain.Class → String
aggregate_name c = c.name <> first_upper "aggregate"

abbrev pub list_name : Domain.Class → String
list_name c = c.name <> first_upper "list"
