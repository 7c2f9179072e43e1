-- ===== src/Service/Query/Access.antt =====
-- service/service.go, service/query.go: what a read expression restricts.
use entix.Prelude.{
  ℕ, ◌≡◌, refl, ap, String, Bool, true, false, List, Outcome, ok, err, panic, ◌>>=◌, Ensures,
  bind_ext, ◌⊎◌, inl, inr, Value, Maps, no_map, add_map, Fields, end, field, get, no_fields, arith,
  if◌then◌else◌,
}
use entix.Meta.{AttributeMeta}
use entix.Graph.{Entity}
use entix.Graph.Inherit.{all_attributes}
use entix.Orm.Query as Q
use entix.Orm.Query.Arguments.{Unread, query-Unread}
use entix.Service.Query.{
  Service, Access, Granted, merge_where_args, reads_all, auth_args, read_configs, access_of,
  can_read_entity, choose_fields, query_entity,
}

-- The arguments of an access are none, or none that a query reads.
abbrev pub Unrestricted : Access → Type 0
Unrestricted a = (a.where_args ≡ end) ⊎ ((no_fields a.where_args ≡ false) × Unread a.where_args)

access_of-Unrestricted : (granted : Bool) (ms : Maps) → Unrestricted (access_of granted ms)
unfolding get
access_of-Unrestricted granted no_map = inl refl
access_of-Unrestricted granted (add_map m ms) = inr (refl, (refl, refl, refl, refl))

can_read_entity-Unrestricted :
    (unmarshal : String → Outcome Fields) (ask : String → Fields → Outcome (List Fields))
    (s : Service) (e : Entity)
    → Ensures (can_read_entity unmarshal ask s e) Unrestricted
unfolding can_read_entity
can_read_entity-Unrestricted unmarshal ask s e =
    go (reads_all s) (ask "ClassAuthConfig" (auth_args s e))
  where
    from_rows :
        (o : Outcome Granted)
        → Ensures (o >>= λ g. ok (access_of g.can_read g.or_args)) Unrestricted
    from_rows (ok g) = access_of-Unrestricted g.can_read g.or_args
    from_rows (err _) = tt
    from_rows (panic _) = tt

    go :
        (b : Bool) (o : Outcome (List Fields))
        → Ensures
            (if b
              then ok (record { can_read = true; where_args = end })
              else (o >>= λ rows.
                  read_configs unmarshal rows >>= λ g. ok (access_of g.can_read g.or_args)))
            Unrestricted
    go true o = inl refl
    go false (ok rows) = from_rows (read_configs unmarshal rows)
    go false (err _) = tt
    go false (panic _) = tt

merge_where_args-Unread :
    (args auth : Fields)
    → no_fields auth ≡ false
    → Unread auth
    → Unread (merge_where_args args auth)
unfolding merge_where_args get
merge_where_args-Unread end auth h u = u
merge_where_args-Unread (field k v m) end h u = absurd (ground (arith, h))
merge_where_args-Unread (field k v m) (field l w n) h u = (refl, refl, refl, refl)

merge_where_args-end : (args : Fields) → merge_where_args args end ≡ args
unfolding merge_where_args
merge_where_args-end end = refl
merge_where_args-end (field k v m) = refl

query-Unrestricted :
    (verb_d : Value → String) (heap : List Entity) (e : Entity) (args auth : Fields)
    (fields : List AttributeMeta) (seed : ℕ)
    → (auth ≡ end) ⊎ ((no_fields auth ≡ false) × Unread auth)
    → Q.query verb_d heap e (merge_where_args args auth) fields seed
      ≡ Q.query verb_d heap e (if no_fields auth then args else end) fields seed
query-Unrestricted verb_d heap e args auth fields seed (inl none_asked) =
    rw none_asked (ap (λ m. Q.query verb_d heap e m fields seed) (merge_where_args-end args))
query-Unrestricted verb_d heap e args auth fields seed (inr (some_asked, unread)) = rw some_asked (
    query-Unread verb_d heap e (merge_where_args args auth) fields seed
      (merge_where_args-Unread args auth some_asked unread))

-- A call of `QueryEntity` asks what its arguments say where the access brings no conditions, and
-- panics where it is refused. Where the access brings read expressions, the call reads and counts the
-- rows of the entity without any condition: neither they nor the call's own conditions, order, limit
-- and offset get into the statements.
pub query_entity-Unrestricted :
    (unmarshal : String → Outcome Fields) (ask : String → Fields → Outcome (List Fields))
    (verb_d : Value → String) (heap : List Entity) (s : Service) (e : Entity) (args : Fields)
    (names : List String) (seed : ℕ)
    → query_entity unmarshal ask verb_d heap s e args names seed ≡ (
        can_read_entity unmarshal ask s e >>= λ a.
        if a.can_read
        then Q.query verb_d heap e
            (if no_fields a.where_args then args else end)
            (choose_fields (all_attributes e) names)
            seed
        else panic "No access")
unfolding query_entity
query_entity-Unrestricted unmarshal ask verb_d heap s e args names seed =
    bind_ext Unrestricted (can_read_entity unmarshal ask s e) _ _
      (can_read_entity-Unrestricted unmarshal ask s e)
      (λ a u.
        ap (λ q. if a.can_read then q else panic "No access")
          (query-Unrestricted verb_d heap e args a.where_args
            (choose_fields (all_attributes e) names) seed u))
