-- ===== src/Service/Query.antt =====
-- service/service.go, service/query.go: who may read an entity, and with which arguments the
-- session is asked. `ask` stands for `session.Query`: the rows that the database holds of the entity
-- of a name under some arguments; `unmarshal` for `json.Unmarshal` into a map.
pub mod Access
use entix.Prelude.{
  ℕ, String, Bool, true, false, ◌&&◌, ◌||◌, not, List, [], ◌∷◌, ◌++◌, Option, none, some, Outcome,
  ok, err, panic, ◌>>=◌, is_empty, Value, null, str, num, bool, nums, obj, maps, Maps, no_map,
  add_map, Fields, end, field, get, no_fields, ◌=?◌, if◌then◌else◌,
}
use entix.Consts
use entix.Meta.{AttributeMeta}
use entix.Graph.{Entity}
use entix.Graph.Inherit.{all_attributes}
use entix.Orm.Query as Q

-- `auth.User`, as far as access depends on it.
pub record User : Type 0 where
  pub id : String
  pub is_supper : Bool
  pub is_demo : Bool

-- The user of a service is that of its context.
pub record Service : Type 0 where
  pub is_system : Bool
  pub me : Option User
  pub app_id : ℕ
  pub role_ids : List ℕ

unfoldable pub merge_where_args : Fields → Fields → Fields
merge_where_args where_args auth_args =
    if no_fields where_args
    then auth_args
    else if no_fields auth_args
    then where_args
    else field Consts.arg_and (maps (add_map where_args (add_map auth_args no_map))) end

abbrev pub Access : Type 0
Access = record { can_read : Bool; where_args : Fields }

-- `s.isSystem || (s.me() != nil && (s.me().IsSupper || s.me().IsDemo))`
unfoldable pub reads_all : Service → Bool
reads_all s = s.is_system || (elim s.me [ none ↦ false | some u ↦ u.is_supper || u.is_demo ])

abbrev pub equals : Value → Value
equals v = obj (field Consts.arg_eq v end)

unfoldable pub auth_args : Service → Entity → Fields
auth_args s e =
    field Consts.arg_and
      (maps (
        add_map (field "app" (obj (field Consts.id (equals (num s.app_id)) end)) end) (
          add_map (field "roleId" (obj (field Consts.arg_in (nums s.role_ids) end)) end)
            (add_map (field "classUuid" (equals (str e.domain.uuid)) end) no_map))))
      end

abbrev pub Granted : Type 0
Granted = record { can_read : Bool; or_args : Maps }

-- `row["canRead"] != nil && row["canRead"].(bool)`
unfoldable pub grants : Value → Outcome Bool
grants null = ok false
grants (bool b) = ok b
grants _ = panic "interface conversion"

-- The attributes that are asked for, in the order of the entity.
unfoldable pub named_by : AttributeMeta → List String → List AttributeMeta
named_by a [] = []
named_by a (name ∷ names) = let rest = named_by a names in if a.name =? name then a ∷ rest else rest

unfoldable pub choose_fields : List AttributeMeta → List String → List AttributeMeta
unfolding named_by
choose_fields [] names = []
choose_fields (a ∷ more) names = named_by a names ++ choose_fields more names

-- The conditions of the rows become one, if there is any.
abbrev pub access_of : Bool → Maps → Access
access_of granted no_map = record { can_read = granted; where_args = end }
access_of granted (add_map m ms) = record {
  can_read = granted;
  where_args = field Consts.arg_or (maps (add_map m ms)) end;
}

module _ (unmarshal : String → Outcome Fields) where
  -- A failure of `unmarshal` is a panic.
  unfoldable pub must : Outcome Fields → Outcome Fields
  must (err message) = panic message
  must o = o

  -- The condition of a row, if it has one.
  unfoldable pub expression_of : Value → Outcome (Option Fields)
  unfolding must
  expression_of null = ok none
  expression_of (str text) = do m ← must (unmarshal text); ok (some m)
  expression_of _ = panic "interface conversion"

  -- The loop over the rows.
  unfoldable pub read_configs : List Fields → Outcome Granted
  unfolding grants expression_of get
  read_configs [] = ok (record { can_read = false; or_args = no_map })
  read_configs (row ∷ rows) = do
    granted ← grants (get row "canRead")
    condition ← expression_of (get row "readExpression")
    rest ← read_configs rows
    ok (record {
      can_read = granted || rest.can_read;
      or_args = elim condition [ none ↦ rest.or_args | some m ↦ add_map m rest.or_args ];
    })

  module _ (ask : String → Fields → Outcome (List Fields)) where
    unfoldable pub can_read_entity : Service → Entity → Outcome Access
    unfolding reads_all auth_args read_configs
    can_read_entity s e =
        if reads_all s
        then ok (record { can_read = true; where_args = end })
        else (ask "ClassAuthConfig" (auth_args s e) >>= λ rows.
            read_configs rows >>= λ granted. ok (access_of granted.can_read granted.or_args))

    module _ (verb_d : Value → String) (heap : List Entity) where
      -- `QueryEntity` up to what the database answers.
      unfoldable pub query_entity :
          Service → Entity → Fields → List String → ℕ → Outcome Q.Statements
      unfolding can_read_entity merge_where_args choose_fields all_attributes Q.query
      query_entity s e args names seed = do
        access ← can_read_entity s e
        (if access.can_read
            then Q.query verb_d heap e (merge_where_args args access.where_args)
                (choose_fields (all_attributes e) names) seed
            else panic "No access")
