-- ===== src/Tests/Queries.antt =====
-- The theorems on the statements of a query, at the samples.
use entix.Prelude.{
  ℕ, ◌<◌, ◌≤◌, Ensures, ◌≡◌, refl, String, true, false, List, [], ◌∷◌, some, Outcome, ok, ◌>>=◌,
  length, if◌then◌else◌, no_fields, join, Value, str, num, list, maps, obj, nil, item, no_map,
  add_map, Fields, end, field, find_first,
}
use entix.Graph.{Entity}
use entix.Graph.Link
use entix.Graph.Inherit.{get_association_by_name, all_attributes}
use entix.Graph.Args.{
  build_arg_entity, visit_association, add_arg, set_arg, ArgEntity, arg_entity, no_association,
  arg_association, find_arg,
}
use entix.Graph.Args.Ids.{uses, handed_out}
use entix.Graph.Args.Distinct.{build_arg_entity-Grows}
use entix.Mysql.Where.{Exp, build_where_sql, clause_of, operator_of}
use entix.Mysql.Where.Marks.{marks}
use entix.Mysql.Where.Asks.{Asks}
use entix.Mysql.Where.Whole.{build_where_sql-fills}
use entix.Orm.Query as Q
use entix.Service.Query as S
use entix.Service.Query.Access.{query_entity-Unrestricted}
use entix.Tests.Graphs.{user_class, role_class, roles, drawn}

abbrev pub users : Entity
users = record {
  place = 0;
  domain = user_class;
  associations = record { relation = roles; owner_class_uuid = "u" } ∷ [];
  interfaces = [];
}

abbrev pub role : Entity
role = record { place = 1; domain = role_class; associations = []; interfaces = [] }

-- The users with roles in sight.
abbrev tree : ArgEntity
tree = arg_entity 1 users (
    arg_association (record { relation = roles; owner_class_uuid = "u" })
      (arg_entity 2 role no_association) no_association)

abbrev name_is : String → Fields
name_is name = field "name" (obj (field "_eq" (str name) end)) end

-- Ann or Bob, with the role 4 or 5.
abbrev condition : Fields
condition = field "_or" (maps (add_map (name_is "Ann") (add_map (name_is "Bob") no_map))) (
    field "roles"
      (obj (field "id" (obj (field "_in" (list (item (num 4) (item (num 5) nil))) end)) end)) end)

-- Without parentheses around it, the disjunction ends before the rest of the condition.
condition_text :
    build_where_sql tree (some condition)
    ≡ ok (record {
      text = "((t1.name= ?)) OR ((t1.name= ?)) AND (((t2.id IN(?,?))))";
      params = str "Ann" ∷ str "Bob" ∷ num 4 ∷ num 5 ∷ [];
    })
unfolding build_where_sql roles drawn user_class role_class get_association_by_name find_arg join
condition_text = refl

build_where_sql-fills_example :
    (e : Exp) × (build_where_sql tree (some condition) ≡ ok e) × (marks e.text ≡ length e.params)
unfolding Asks clause_of operator_of get_association_by_name find_arg Link.name Link.is_source roles
    drawn user_class role_class find_first
build_where_sql-fills_example =
    build_where_sql-fills tree condition (
      (((refl, refl), tt), (((refl, refl), tt), tt)),
      (((refl, (num 4 ∷ num 5 ∷ [], refl)), tt), tt),
    )

abbrev pub verb_d : Value → String
verb_d v = "%!d"

abbrev pub heap : List Entity
heap = users ∷ role ∷ []

abbrev pub ann : S.Service
ann = record {
  is_system = false;
  me = some (record { id = "9"; is_supper = false; is_demo = false });
  app_id = 7;
  role_ids = 1 ∷ [];
}

-- One row, which lets Ann read users named Bob.
abbrev ask : String → Fields → Outcome (List Fields)
ask name args = ok (field "canRead" (Value.bool true) (field "readExpression" (str "bob") end) ∷ [])

abbrev pub unmarshal : String → Outcome Fields
unmarshal text = ok (name_is "Bob")

query_entity-Unrestricted_example :
    S.query_entity unmarshal ask verb_d heap ann users
      (field "where" (obj (name_is "Ann")) end)
      ("id" ∷ [])
      7
    ≡ (S.can_read_entity unmarshal ask ann users >>= λ a.
        if a.can_read
        then Q.query verb_d heap users
            (if no_fields a.where_args then field "where" (obj (name_is "Ann")) end else end)
            (S.choose_fields (all_attributes users) ("id" ∷ []))
            7
        else Outcome.panic "No access")
query_entity-Unrestricted_example =
    query_entity-Unrestricted unmarshal ask verb_d heap ann users
      (field "where" (obj (name_is "Ann")) end) ("id" ∷ []) 7

build_arg_entity-Grows_example :
    Ensures
      (build_arg_entity heap users (obj condition) 0)
      λ built. (0 < built.seed) × ((k : ℕ) → uses k built.tree ≤ handed_out 0 built.seed k)
build_arg_entity-Grows_example = build_arg_entity-Grows heap users (obj condition) 0

-- The tree of the users with roles in sight is the one that the condition needs.
tree_of_condition :
    build_arg_entity heap users (obj condition) 0 ≡ ok (record { tree = tree; seed = 2 })
unfolding build_arg_entity roles drawn user_class role_class get_association_by_name find_arg
    visit_association Link.type_entity add_arg set_arg
tree_of_condition = refl
