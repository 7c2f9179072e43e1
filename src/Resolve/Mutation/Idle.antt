-- ===== src/Resolve/Mutation/Idle.antt =====
-- modules/app/resolve/mutation.go: SetResolveFn sets nothing.
use entix.Prelude.{
  ℕ, ◌≡◌, refl, ◌∙◌, String, Bool, true, false, not, List, [], ◌∷◌, ◌++◌, length, Option, none,
  Outcome, Fields, Bool-cases, Option-cases, inl, inr, if◌then◌else◌,
}
use mathlib.Core.List.{append-nil}
use entix.Meta.{AttributeMeta}
use entix.Db.{
  State, Ending, value, error, panics, exits, M, ◌>>=◌, ◌>>◌, goes_on, done_with, lift, panic_with,
  catch, commit, clear_tx,
}
use entix.Data.{Instance}
use entix.Graph.{Entity}
use entix.Orm.Session.{Context}
use entix.Orm.Read.{query_response, query_records}
use entix.Orm.Read.Keeps.{Kept, Keeps, Keeps-query_total, Keeps-lift}
use entix.Service.Query.{User, Service, choose_fields, named_by}
use entix.Service.Read.{query_entity}
use entix.Service.Read.Keeps.{Keeps-new_service, Keeps-can_read, Keeps-open_or_panic}
use entix.Service.Change.Atomic.Calls.{open_db-cases, begin_tx-cases}
use entix.Graph.Inherit.{all_attributes}
use entix.Service.Change.{save, save_each, saved_rows, committing, deferring, give_up}
use entix.Resolve.{Answer, Affected}
use entix.Resolve.Mutation.{set_instances, set_resolve}

-- The value, if there is one, is such.
abbrev pub Given : {V : Type 0} → (V → Type 0) → Ending V → Type 0
Given P (value v) = P v
Given P _ = Unit

-- Nothing is stored, and the value is such.
pub record Stays {V : Type 0} (P : V → Type 0) (m : M V) : Type 0 where
  pub stays : (s : State) → ((m s).1.stored ≡ s.stored) × Given P (m s).0

Stays-goes_on :
    {V W : Type 0} (P : V → Type 0) (Q : W → Type 0) (next : V → M W) (s : State)
    (p : Ending V × State)
    → (p.1.stored ≡ s.stored) × Given P p.0
    → ((v : V) → P v → Stays Q (next v))
    → ((goes_on next p).1.stored ≡ s.stored) × Given Q (goes_on next p).0
Stays-goes_on P Q next s (value v, t) (e, h) k = let (d, g) = (k v h).stays t in (d ∙ e, g)
Stays-goes_on P Q next s (error m, t) (e, h) k = (e, tt)
Stays-goes_on P Q next s (panics m, t) (e, h) k = (e, tt)
Stays-goes_on P Q next s (exits m, t) (e, h) k = (e, tt)

Stays->>= :
    {V W : Type 0} (P : V → Type 0) (Q : W → Type 0) {m : M V} {next : V → M W}
    → Stays P m
    → ((v : V) → P v → Stays Q (next v))
    → Stays Q (m >>= next)
unfolding ◌>>=◌
Stays->>= P Q {m} {next} h k = record { stays = λ s. Stays-goes_on P Q next s (m s) (h.stays s) k }

Stays->> :
    {V W : Type 0} (Q : W → Type 0) {m : M V} {n : M W}
    → Stays (λ _. Unit {0}) m
    → Stays Q n
    → Stays Q (m >> n)
unfolding ◌>>◌
Stays->> Q h k = Stays->>= (λ _. Unit {0}) Q h (λ _ _. k)

Stays-done_with : {V : Type 0} (P : V → Type 0) (v : V) → P v → Stays P (done_with v)
unfolding done_with
Stays-done_with P v h = record { stays = λ s. (refl, h) }

Stays-panic_with : {V : Type 0} (P : V → Type 0) (m : String) → Stays P (panic_with m)
unfolding panic_with
Stays-panic_with P m = record { stays = λ s. (refl, tt) }

Stays-if :
    {V : Type 0} (P : V → Type 0) (b : Bool) {m n : M V}
    → Stays P m
    → Stays P n
    → Stays P (if b then m else n)
Stays-if P true h k = h
Stays-if P false h k = k

Stays-Kept :
    {V : Type 0} (s : State) (p : Ending V × State)
    → Kept s p
    → (p.1.stored ≡ s.stored) × Given (λ _. Unit {0}) p.0
Stays-Kept s (value v, t) (e, k) = (e, tt)
Stays-Kept s (error m, t) (e, k) = (e, tt)
Stays-Kept s (panics m, t) (e, k) = (e, tt)
Stays-Kept s (exits m, t) h = absurd h

Stays-Keeps : {V : Type 0} {m : M V} → Keeps m → Stays (λ _. Unit {0}) m
Stays-Keeps {m} h = record { stays = λ s. Stays-Kept s (m s) (h.keeps s) }

-- No attribute is asked for.
choose_fields-nil : (attrs : List AttributeMeta) → choose_fields attrs [] ≡ []
unfolding choose_fields named_by
choose_fields-nil [] = refl
choose_fields-nil (a ∷ more) = choose_fields-nil more

-- No row is affected, and none is returned.
abbrev pub Idle : Answer Affected → Type 0
Idle a = (a.reply.affected_rows ≡ 0) × (a.reply.returning ≡ [])

module _ (x : Context) where
  -- Without fields a query answers no rows.
  Stays-query_response :
      (e : Entity) (args : Fields) (fields : List AttributeMeta)
      → fields ≡ []
      → Stays (λ r. r.nodes ≡ []) (query_response x e args fields)
  unfolding query_response query_records
  Stays-query_response e args fields h =
      Stays->>= (λ ms. ms ≡ []) (λ r. r.nodes ≡ []) (rw h (Stays-done_with (λ ms. ms ≡ []) [] refl))
        (λ ms k.
          Stays->>= (λ _. Unit {0}) (λ r. r.nodes ≡ []) (Stays-Keeps (Keeps-query_total x e args))
            (λ total _. Stays-done_with (λ r. r.nodes ≡ []) _ k))

  Stays-query_entity :
      (unmarshal : String → Outcome Fields) (s : Service) (e : Entity) (args : Fields)
      → Stays (λ r. r.nodes ≡ []) (query_entity x unmarshal s e args [])
  unfolding query_entity
  Stays-query_entity unmarshal s e args =
      Stays->>= (λ _. Unit {0}) (λ r. r.nodes ≡ []) (Stays-Keeps (Keeps-can_read x unmarshal s e))
        (λ access _.
          Stays-if (λ r. r.nodes ≡ []) (not access.can_read) (Stays-panic_with _ _)
            (Stays->> (λ r. r.nodes ≡ []) (Stays-Keeps (Keeps-open_or_panic x))
              (Stays-query_response e _ _ (choose_fields-nil (all_attributes e)))))

  -- Saving nothing stores nothing.
  Stays-save : (fuel : ℕ) → Stays (λ rows. rows ≡ []) (save x fuel [])
  unfolding save ◌>>◌ ◌>>=◌ deferring committing save_each saved_rows catch clear_tx commit give_up
      done_with
  Stays-save fuel = record {
    stays = λ s. elim (open_db-cases x s) [
      | inr (e, t, o, lost) ↦ rw o (lost.0, tt)
      | inl o ↦ elim (begin_tx-cases x s) [
        | inr (e, b) ↦ rw (o, b) (refl, tt)
        | inl b ↦ elim (Option-cases (x.driver.commits (s.stored ++ []))) [
          | inl c ↦ rw (o, b, c) (append-nil s.stored, refl)
          | inr (m, c) ↦ elim (Bool-cases (x.driver.keeps (s.stored ++ []))) [
            | inl k ↦ rw (o, b, c, k) (append-nil s.stored, tt)
            | inr k ↦ rw (o, b, c, k) (refl, tt)
          ]
        ]
      ]
    ];
  }

  Stays-set_found :
      (e : Entity) (set : Fields) (nodes : List Fields)
      → nodes ≡ []
      → Stays (λ is. is ≡ []) (lift (set_instances x e set nodes))
  unfolding set_instances lift
  Stays-set_found e set nodes h = rw h (Stays-done_with (λ is. is ≡ []) [] refl)

  Stays-save_none :
      (fuel : ℕ) (is : List Instance) → is ≡ [] → Stays (λ rows. rows ≡ []) (save x fuel is)
  Stays-save_none fuel is h = rw h (Stays-save fuel)

  Idle-none :
      (is : List Instance) (rows : List Fields)
      → is ≡ []
      → rows ≡ []
      → Idle
          (record { reply = record { returning = rows; affected_rows = length is }; told = none })
  Idle-none is rows h k = (rw h refl, k)

  -- However SetResolveFn ends, nothing is stored; where it answers, it reports no affected row and
  -- returns none, whatever is to be set and whatever rows match.
  pub set_resolve-Idle :
      (unmarshal : String → Outcome Fields) (me : Option User) (app_id fuel : ℕ) (e : Entity)
      (args : Fields) (s : State)
      → ((set_resolve x unmarshal me app_id fuel e args s).1.stored ≡ s.stored)
        × Given Idle (set_resolve x unmarshal me app_id fuel e args s).0
  unfolding set_resolve
  set_resolve-Idle unmarshal me app_id fuel e args =
      (Stays->>= (λ _. Unit {0}) Idle (Stays-Keeps (Keeps-lift _))
        (λ set _.
          Stays->>= (λ _. Unit {0}) Idle (Stays-Keeps (Keeps-new_service x me app_id))
            (λ service _.
              Stays->>= (λ r. r.nodes ≡ []) Idle (Stays-query_entity unmarshal service e args)
                (λ r h.
                  Stays->>= (λ is. is ≡ []) Idle (Stays-set_found e set r.nodes h)
                    (λ is k.
                      Stays->>= (λ rows. rows ≡ []) Idle (Stays-save_none fuel is k)
                        (λ rows q. Stays-done_with Idle _ (Idle-none is rows k q))))))).stays
