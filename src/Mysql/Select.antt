-- ===== src/Mysql/Select.antt =====
-- db/dialect/mysql/query.go: the statements that read.
use entix.Prelude.{
  ℕ, zero, suc, String, ◌<>◌, List, [], ◌∷◌, ◌++◌, map, Outcome, ok, panic, ◌>>=◌, is_empty, join,
  show, Value, list, str, obj, Items, nil, item, Fields, end, field, if◌then◌else◌,
}
use entix.Consts
use entix.Meta.{AttributeMeta}
use entix.Graph.{Association, Entity}
use entix.Graph.Inherit.{all_attribute_names}
use entix.Graph.Name.{table_name}
use entix.Graph.Tables.{relation_table_name}
use entix.Graph.Args.{
  ArgEntity, arg_entity, ArgAssociations, no_association, arg_association, id_of, entity_of,
  associations_of, alise,
}

abbrev pub table_of : ArgEntity → String
table_of t = table_name (entity_of t).domain

-- The two joins of an association: the table of the relation, and that of the entity.
unfoldable pub join_one : ArgEntity → Association → ArgEntity → String
unfolding alise table_name relation_table_name
join_one owner a t =
    let povit = "t_" <> (show (id_of owner) <> ("_" <> show (id_of t))) in
    " LEFT JOIN "
    <> (relation_table_name a.relation
        <> (" "
            <> (povit
                <> (" ON "
                    <> (alise owner
                        <> ("."
                            <> (Consts.id
                                <> ("="
                                    <> (povit
                                        <> ("."
                                            <> (table_of owner
                                                <> (" LEFT JOIN "
                                                    <> (table_of t
                                                        <> (" "
                                                            <> (alise t
                                                            <> (" ON "
                                                            <> (povit
                                                            <> ("."
                                                            <> (table_of t
                                                            <> ("="
                                                            <> (alise t
                                                            <> ("."
                                                            <> (Consts.id
                                                            <> " ")))))))))))))))))))))))

unfoldable mutual
  unfolding join_one

  -- `buildArgAssociation`
  pub join_association : ArgEntity → Association → ArgEntity → String
  join_association owner a (arg_entity i e more) =
      join_one owner a (arg_entity i e more) <> join_associations (arg_entity i e more) more

  -- Its loop over the associations of an entity that is joined.
  pub join_associations : ArgEntity → ArgAssociations → String
  join_associations owner no_association = ""
  join_associations owner (arg_association a t more) =
      join_association owner a t <> join_associations owner more

-- The loop over the associations of the entity that is asked for.
unfoldable pub joins : ArgEntity → ArgAssociations → String
unfolding join_association
joins owner no_association = ""
joins owner (arg_association a t more) = " " <> (join_association owner a t <> joins owner more)

unfoldable pub build_query_count_sql_body : ArgEntity → String
unfolding joins alise table_name
build_query_count_sql_body t =
    "select count("
    <> (alise t
        <> (".id) from " <> (table_of t <> (" " <> (alise t <> joins t (associations_of t))))))

unfoldable pub field_names : ArgEntity → List AttributeMeta → List String
unfolding alise
field_names t [] = []
field_names t (f ∷ fs) = (alise t <> ("." <> f.name)) ∷ field_names t fs

unfoldable pub build_query_sql_body : ArgEntity → List AttributeMeta → String
unfolding joins alise table_name field_names
build_query_sql_body t fields =
    "select "
    <> (join "," (field_names t fields)
        <> (" from " <> (table_of t <> (" " <> (alise t <> (" " <> joins t (associations_of t)))))))

-- The inner loop of `BuildOrderBySQL`, over one map.
unfoldable pub order_by_map : ArgEntity → Fields → Outcome (List String)
unfolding alise
order_by_map t end = ok []
order_by_map t (field key (str order) m) = do
  more ← order_by_map t m
  ok ((alise t <> ("." <> (key <> (" " <> order)))) ∷ more)
order_by_map t (field key _ m) = panic "interface conversion"

unfoldable pub order_by_items : ArgEntity → Items → Outcome (List String)
unfolding order_by_map
order_by_items t nil = ok []
order_by_items t (item (obj m) vs) = do
  first ← order_by_map t m
  more ← order_by_items t vs
  ok (first ++ more)
order_by_items t (item _ vs) = panic "interface conversion"

unfoldable pub build_order_by_sql : ArgEntity → Value → Outcome String
unfolding order_by_items
build_order_by_sql t (list vs) = do
  orders ← order_by_items t vs
  ok (if is_empty orders then "" else " ORDER BY " <> join "," orders)
build_order_by_sql t _ = ok ""

-- `associationFieldSQL`
unfoldable pub association_field_sql : Entity → String
unfolding all_attribute_names
association_field_sql e = join "," (map (λ name. "a." <> name) (all_attribute_names e))

-- The marks of `BuildQueryByIdsSQL`.
unfoldable numbered : ℕ → List String
numbered zero = []
numbered (suc n) = "?" ∷ numbered n

unfoldable pub build_query_by_ids_sql : Entity → ℕ → String
unfolding all_attribute_names table_name numbered
build_query_by_ids_sql e count =
    "select "
    <> (join "," (all_attribute_names e)
        <> (" from "
            <> (table_name e.domain <> (" WHERE id in(" <> (join "," (numbered count) <> ") ")))))

unfoldable pub build_query_associated_instances_sql : Entity → ℕ → String → String → String → String
unfolding association_field_sql table_name
build_query_associated_instances_sql e owner_id povit_table_name owner_field_name type_field_name =
    "select "
    <> (association_field_sql e
        <> (" from "
            <> (table_name e.domain
                <> (" a INNER JOIN "
                    <> (povit_table_name
                        <> (" b ON a.id = b."
                            <> (type_field_name
                                <> (" WHERE b."
                                    <> (owner_field_name <> ("=" <> (show owner_id <> " ")))))))))))

unfoldable pub build_batch_association_body_sql :
    ArgEntity → List AttributeMeta → String → String → String → List ℕ → String
unfolding joins alise table_name field_names
build_batch_association_body_sql t fields povit_table_name owner_field_name type_field_name ids =
    "select "
    <> (join "," (field_names t fields)
        <> (", povit."
            <> (owner_field_name
                <> (" as "
                    <> (Consts.association_owner_id
                        <> (" from "
                            <> (table_of t
                                <> (" "
                                    <> (alise t
                                        <> (" INNER JOIN "
                                            <> (povit_table_name
                                                <> (" povit ON "
                                                    <> (alise t
                                                        <> (".id = povit."
                                                            <> (type_field_name
                                                            <> (" "
                                                            <> (joins t (associations_of t)
                                                            <> (" WHERE povit."
                                                            <> (owner_field_name
                                                            <> (" in ("
                                                            <> (join "," (map show ids)
                                                            <> ")")))))))))))))))))))))
