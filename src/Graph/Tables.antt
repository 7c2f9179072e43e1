-- ===== src/Graph/Tables.antt =====
-- model/graph/table.go: the tables of entities and relations.
use entix.Prelude.{String, ◌<>◌, true, false, [], ◌∷◌, map, join, show, ◌==◌, if◌then◌else◌}
use entix.Consts
use entix.Meta.{AttributeMeta}
use entix.Meta.TypeName
use entix.Table.{Column, Table}
use entix.Graph.{Relation, Entity}
use entix.Graph.Inherit.{all_attributes}
use entix.Graph.Name.{table_name}

unfoldable pub new_attribute_column : AttributeMeta → Column
new_attribute_column attr = record { attribute = attr; key = false }

unfoldable pub new_entity_table : Entity → Table
unfolding all_attributes table_name new_attribute_column
new_entity_table e = record {
  uuid = e.domain.uuid;
  name = table_name e.domain;
  entity_inner_id = e.domain.inner_id;
  columns = map new_attribute_column (all_attributes e);
  pk_string = "";
  id_no_shift = e.domain.id_no_shift;
}

-- Go's zero value.
abbrev pub zero_attribute : AttributeMeta
zero_attribute = record {
  uuid = "";
  type = "";
  primary = false;
  name = "";
  label = "";
  nullable = false;
  default = "";
  unique = false;
  index = false;
  create_date = false;
  update_date = false;
  delete_date = false;
  hidden = false;
  length = 0;
  float_m = 0;
  float_d = 0;
  unsigned = false;
  type_uuid = "";
  readonly = false;
  description = "";
  type_label = "";
  system = false;
  auto_increment = false;
  auto_generate = false;
}

unfoldable pub end_column : String → String → Column
end_column uuid name = record {
  attribute = record zero_attribute { type = TypeName.id; uuid = uuid; name = name; index = true };
  key = false;
}

unfoldable pub relation_table_name : Relation → String
unfolding join show
relation_table_name r =
    let prefix =
      if r.app_id == 1
      then Consts.pivot
      else Consts.table_prefix <> (show r.app_id <> Consts.pivot) in
    join "_" (
      prefix
      ∷ show r.source_entity.domain.inner_id
      ∷ show r.inner_id
      ∷ show r.target_entity.domain.inner_id
      ∷ [])

unfoldable pub new_relation_table : Relation → Table
unfolding relation_table_name end_column table_name new_attribute_column
new_relation_table r =
    let source = r.source_entity.domain in
    let target = r.target_entity.domain in
    record {
      uuid = source.uuid <> (r.uuid <> target.uuid);
      name = relation_table_name r;
      entity_inner_id = 0;
      columns =
          end_column (source.uuid <> r.uuid) (table_name source)
          ∷ end_column (target.uuid <> r.uuid) (table_name target)
          ∷ (if r.enable_associaiton_class
              then map new_attribute_column r.association_class.attributes
              else []);
      pk_string = "";
      id_no_shift = false;
    }
