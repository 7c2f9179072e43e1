-- ===== src/Mysql/Where.antt =====
-- db/dialect/mysql/query.go: the condition of a query. A parameter stands for a `?` of the text, by
-- their order.
pub mod Marks
pub mod Asks
pub mod Filled
pub mod Whole
use entix.Prelude.{
  String, ◌<>◌, Bool, true, false, List, [], ◌∷◌, ◌++◌, map, Option, none, some, Outcome, ok, panic,
  ◌>>=◌, is_empty, join, Value, bool, texts, list, maps, obj, str, Items, nil, item, Maps, no_map,
  add_map, Fields, end, field, to_list, to_texts, to_map, ◌=?◌, if◌then◌else◌,
}
use entix.Consts
use entix.Graph.{Association}
use entix.Graph.Inherit.{get_association_by_name}
use entix.Graph.Args.{ArgEntity, entity_of, associations_of, find_arg, alise, not_found}

abbrev pub Exp : Type 0
Exp = record { text : String; params : List Value }

-- What the cases of the switch in `BuildFieldExp` do: most append a text to the name of the field,
-- and the value to the parameters.
pub data Operator : Type 0 where
  compares : String → Operator
  is_in not_in tests_null unknown : Operator

unfoldable pub operator_of : String → Operator
operator_of key =
    if key =? Consts.arg_eq
    then compares "= ?"
    else if key =? Consts.arg_gt
    then compares "> ?"
    else if key =? Consts.arg_gte
    then compares ">= ?"
    else if key =? Consts.arg_in
    then is_in
    else if key =? Consts.arg_isnull
    then tests_null
    else if key =? Consts.arg_lt
    then compares "< ?"
    else if key =? Consts.arg_lte
    then compares "<= ?"
    else if key =? Consts.arg_noteq
    then compares "<> ?"
    else if key =? Consts.arg_notin
    then not_in
    else if key =? Consts.arg_ilike
    then compares " LIKE ?"
    else if key =? Consts.arg_like
    then compares " LIKE BINARY ?"
    else if key =? Consts.arg_notilike
    then compares " NOT LIKE ?"
    else if key =? Consts.arg_notlike
    then compares " NOT LIKE BINARY ?"
    else if key =? Consts.arg_notregex
    then compares " NOT REGEXP ?"
    else if key =? Consts.arg_regex
    then compares " REGEXP "
    else unknown

-- A `?` for each value.
unfoldable pub place_holders {ℓ} : {A : Type ℓ} → List A → List String
place_holders [] = []
place_holders (v ∷ vs) = "?" ∷ place_holders vs

-- The text of `_in` and `_notIn`, and what stands for it if there is no value.
unfoldable pub listed {ℓ} : {A : Type ℓ} → String → String → List A → String
unfolding place_holders
listed opening instead vs =
    if is_empty vs then instead else opening <> (join "," (place_holders vs) <> ")")

-- The body of the loop in `BuildFieldExp`: the text is replaced, the parameters are added.
unfoldable pub apply_operator : String → String → Operator → Value → Exp → Outcome Exp
unfolding listed
apply_operator name key (compares suffix) v e =
    ok (record { text = name <> suffix; params = e.params ++ v ∷ [] })
apply_operator name key is_in v e = do
  vs ← to_list v
  ok (record { text = listed (name <> " IN(") " false " vs; params = e.params ++ vs })
apply_operator name key not_in v e = do
  ss ← to_texts v
  ok (record { text = listed (name <> " NOT IN(") " true " ss; params = e.params ++ map str ss })
apply_operator name key tests_null (bool true) e =
    ok (record { text = "ISNULL(" <> (name <> ")"); params = e.params })
apply_operator name key tests_null _ e = ok e
apply_operator name key unknown v e = panic ("Can not find token:" <> key)

unfoldable pub apply_operators : String → Fields → Exp → Outcome Exp
unfolding apply_operator operator_of
apply_operators name end e = ok e
apply_operators name (field key v m) e = do
  next ← apply_operator name key (operator_of key) v e
  apply_operators name m next

unfoldable pub build_field_exp : String → Fields → Outcome Exp
unfolding apply_operators
build_field_exp name m = do
  e ← apply_operators name m (record { text = ""; params = [] })
  ok (record { text = "(" <> (e.text <> ")"); params = e.params })

-- What the cases of the switch in `BuildBoolExp` are.
pub data Clause : Type 0 where
  conjunction negation disjunction named : Clause

unfoldable pub clause_of : String → Clause
clause_of key =
    if key =? Consts.arg_and
    then conjunction
    else if key =? Consts.arg_not
    then negation
    else if key =? Consts.arg_or
    then disjunction
    else named

-- The texts that are still to be joined, and the parameters.
abbrev pub Parts : Type 0
Parts = record { querys : List String; params : List Value }

abbrev pub no_part : Parts
no_part = record { querys = []; params = [] }

abbrev pub both : Parts → Parts → Parts
both p q = record { querys = p.querys ++ q.querys; params = p.params ++ q.params }

abbrev pub joined : String → Parts → Exp
joined sep p = record { text = join sep p.querys; params = p.params }

-- What a field adds.
unfoldable pub field_part : String → Value → Outcome Parts
unfolding build_field_exp
field_part name v = do
  m ← to_map v
  e ← build_field_exp name m
  ok (
      if e.text =? ""
      then no_part
      else record { querys = ("(" <> (e.text <> ")")) ∷ []; params = e.params })

-- What an association adds, from the condition on its entity. The texts of `associStrs`, one at
-- most, are joined as they come.
unfoldable pub association_part : Exp → Parts
association_part e =
    if e.text =? ""
    then record { querys = "" ∷ []; params = [] }
    else record { querys = ("(" <> (e.text <> ")")) ∷ []; params = e.params }

-- The branch of an association in the tree; `visit` is the recursive call.
unfoldable pub build_association :
    String → Option ArgEntity → (ArgEntity → Outcome Exp) → Outcome Parts
unfolding association_part
build_association message none visit = panic message
build_association message (some sub) visit = do e ← visit sub; ok (association_part e)

-- The default branch of the switch.
unfoldable pub build_named :
    ArgEntity → String → Value → Option Association → (ArgEntity → Outcome Exp) → Outcome Parts
unfolding field_part build_association alise
build_named t key v none visit = field_part (alise t <> ("." <> key)) v
build_named t key v (some a) visit =
    build_association (not_found (entity_of t) key) (find_arg key (associations_of t)) visit

-- The switch of `BuildBoolExp`, from what its loop over `_and` or `_or` comes to, and from the
-- recursive call on an associated entity.
unfoldable pub build_clause :
    ArgEntity → String → Value → Clause → Outcome Parts → (ArgEntity → Outcome Exp) → Outcome Parts
unfolding build_named
build_clause t key v conjunction each visit = each
build_clause t key v negation each visit = ok no_part
build_clause t key v disjunction each visit = do
  p ← each
  ok (record { querys = join " OR " p.querys ∷ []; params = p.params })
build_clause t key v named each visit =
    build_named t key v (get_association_by_name (entity_of t) key) visit

unfoldable mutual
  unfolding clause_of build_clause

  -- The loop of `BuildBoolExp` over the map.
  pub build_parts : ArgEntity → Fields → Outcome Parts
  build_parts t end = ok no_part
  build_parts t (field key v m) =
      build_clause t key v (clause_of key) (build_each t v) (λ sub. build_sub sub v) >>= λ p.
      build_parts t m >>= λ q. ok (both p q)

  pub build_sub : ArgEntity → Value → Outcome Exp
  build_sub t (obj m) = build_parts t m >>= λ p. ok (joined " AND " p)
  build_sub t _ = panic "interface conversion"

  -- The loops over the values of `_and` and `_or`: a text from each.
  pub build_each : ArgEntity → Value → Outcome Parts
  build_each t (list vs) = build_items t vs
  build_each t (maps ms) = build_maps t ms
  build_each t _ = panic "interface conversion"

  pub build_items : ArgEntity → Items → Outcome Parts
  build_items t nil = ok no_part
  build_items t (item v vs) = build_sub t v >>= λ e.
      build_items t vs >>= λ q. ok (both (record { querys = e.text ∷ []; params = e.params }) q)

  pub build_maps : ArgEntity → Maps → Outcome Parts
  build_maps t no_map = ok no_part
  build_maps t (add_map m ms) = build_parts t m >>= λ p. build_maps t ms >>= λ q.
      ok (both (record { querys = join " AND " p.querys ∷ []; params = p.params }) q)

unfoldable pub build_bool_exp : ArgEntity → Fields → Outcome Exp
unfolding build_parts
build_bool_exp t m = build_parts t m >>= λ p. ok (joined " AND " p)

-- `where` is nil if the call has none.
unfoldable pub build_where_sql : ArgEntity → Option Fields → Outcome Exp
unfolding build_bool_exp
build_where_sql t none = ok (record { text = ""; params = [] })
build_where_sql t (some m) = do
  e ← build_bool_exp t m
  ok (if e.text =? "" then record { text = ""; params = [] } else e)
