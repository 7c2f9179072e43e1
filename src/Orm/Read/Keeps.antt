-- ===== src/Orm/Read/Keeps.antt =====
-- orm/query.go: reading keeps what is stored.
use entix.Prelude.{
  ℕ, ◌≡◌, refl, ◌∙◌, String, Bool, true, false, List, Outcome, ok, err, panic, Fields, Bool-cases,
  Option-cases, inl, inr, is_empty, if◌then◌else◌,
}
use entix.Meta.{AttributeMeta}
use entix.Db.{
  Statement, State, Ending, value, error, panics, exits, M, ◌>>=◌, ◌>>◌, goes_on, done_with, lift,
  panic_with, fails, catch, handles, Driver, open_db, query, validate_db, is_over, seen,
}
use entix.Graph.{Entity, Association}
use entix.Orm.Session.{Context, closes_nil, with_seed, with_built, Seeded, query_one}
use entix.Orm.Read.{query_records, query_total, query_response, batch_real_associations}

-- Nothing is stored, no transaction is begun or ended, and the process goes on.
abbrev pub Kept {κ} : {V : Type κ} → State → Ending V × State → Type 0
Kept s (exits message, t) = ⊥
Kept s (_, t) = (t.stored ≡ s.stored) × (t.live ≡ s.live)

pub record Keeps {κ} {V : Type κ} (m : M V) : Type 0 where
  pub keeps : (s : State) → Kept s (m s)

Kept-after {κ} :
    {V : Type κ} (s t : State) (p : Ending V × State)
    → (t.stored ≡ s.stored) × (t.live ≡ s.live)
    → Kept t p
    → Kept s p
Kept-after s t (value v, u) (h, k) (p, q) = (p ∙ h, q ∙ k)
Kept-after s t (error e, u) (h, k) (p, q) = (p ∙ h, q ∙ k)
Kept-after s t (panics e, u) (h, k) (p, q) = (p ∙ h, q ∙ k)
Kept-after s t (exits e, u) h l = l

Kept-goes_on {κ η} :
    {V : Type κ} {W : Type η} (next : V → M W) (s : State) (p : Ending V × State)
    → Kept s p
    → ((v : V) → Keeps (next v))
    → Kept s (goes_on next p)
Kept-goes_on next s (value v, t) h k = Kept-after s t (next v t) h ((k v).keeps t)
Kept-goes_on next s (error e, t) h k = h
Kept-goes_on next s (panics e, t) h k = h
Kept-goes_on next s (exits e, t) h k = absurd h

pub Keeps->>= {κ η} :
    {V : Type κ} {W : Type η} {m : M V} {next : V → M W}
    → Keeps m
    → ((v : V) → Keeps (next v))
    → Keeps (m >>= next)
unfolding ◌>>=◌
Keeps->>= {m} {next} h k = record { keeps = λ s. Kept-goes_on next s (m s) (h.keeps s) k }

pub Keeps->> {κ η} :
    {V : Type κ} {W : Type η} {m : M V} {n : M W} → Keeps m → Keeps n → Keeps (m >> n)
unfolding ◌>>◌
Keeps->> h k = Keeps->>= h (λ _. k)

pub Keeps-done_with {κ} : {V : Type κ} (v : V) → Keeps (done_with v)
unfolding done_with
Keeps-done_with v = record { keeps = λ s. (refl, refl) }

pub Keeps-panic_with {κ} : {V : Type κ} (message : String) → Keeps {V = V} (panic_with message)
unfolding panic_with
Keeps-panic_with message = record { keeps = λ s. (refl, refl) }

pub Keeps-lift {κ} : {V : Type κ} (o : Outcome V) → Keeps (lift o)
unfolding lift fails panic_with
Keeps-lift (ok v) = Keeps-done_with v
Keeps-lift (err e) = record { keeps = λ s. (refl, refl) }
Keeps-lift (panic e) = record { keeps = λ s. (refl, refl) }

pub Keeps-if {κ} :
    {V : Type κ} (b : Bool) {m n : M V} → Keeps m → Keeps n → Keeps (if b then m else n)
Keeps-if true h k = h
Keeps-if false h k = k

Kept-handles {κ} :
    {V : Type κ} (handle : String → M V) (s : State) (p : Ending V × State)
    → Kept s p
    → ((e : String) → Keeps (handle e))
    → Kept s (handles handle p)
Kept-handles handle s (value v, t) h k = h
Kept-handles handle s (error e, t) h k = Kept-after s t (handle e t) h ((k e).keeps t)
Kept-handles handle s (panics e, t) h k = h
Kept-handles handle s (exits e, t) h k = h

pub Keeps-catch {κ} :
    {V : Type κ} {m : M V} {handle : String → M V}
    → Keeps m
    → ((e : String) → Keeps (handle e))
    → Keeps (catch m handle)
unfolding catch
Keeps-catch {m} {handle} h k = record { keeps = λ s. Kept-handles handle s (m s) (h.keeps s) k }

pub Keeps-open_db : (driver : Driver) → Keeps (open_db driver)
unfolding open_db
Keeps-open_db driver = record {
  keeps = λ s. elim (Bool-cases s.opened_db) [
    | inl e ↦ rw e (refl, refl)
    | inr e ↦ elim (Option-cases driver.opens) [
      | inl k ↦ rw (e, k) (refl, refl)
      | inr (m, k) ↦ rw (e, k) (refl, refl)
    ]
  ];
}

Keeps-validate_db : Keeps validate_db
unfolding validate_db
Keeps-validate_db = record {
  keeps = λ s. elim (Bool-cases s.db) [ inl e ↦ rw e (refl, refl) | inr e ↦ rw e (refl, refl) ];
}

pub Keeps-query : (driver : Driver) (q : Statement) → Keeps (query driver q)
unfolding query
Keeps-query driver q = Keeps->>= Keeps-validate_db (λ _. record {
  keeps = λ s. elim (Bool-cases (is_over driver s.tx)) [
    | inl e ↦ rw e (refl, refl)
    | inr e ↦ rw e ((Keeps-lift (driver.reads (seen driver s.tx s) q)).keeps s)
  ];
})

Kept-with_built : (o : Outcome Seeded) (s : State) → Kept s (with_built o s)
Kept-with_built (ok q) s = (refl, refl)
Kept-with_built (err e) s = (refl, refl)
Kept-with_built (panic e) s = (refl, refl)

pub Keeps-with_seed : (build : ℕ → Outcome Seeded) → Keeps (with_seed build)
unfolding with_seed
Keeps-with_seed build = record { keeps = λ s. Kept-with_built (build s.id_seed) s }

pub Keeps-closes_nil {κ} : {V : Type κ} (message : String) → Keeps {V = V} (closes_nil message)
unfolding closes_nil
Keeps-closes_nil message = Keeps-panic_with _

module _ (x : Context) where
  Keeps-query_closing : (q : Statement) → Keeps (catch (query x.driver q) closes_nil)
  Keeps-query_closing q = Keeps-catch (Keeps-query x.driver q) Keeps-closes_nil

  Keeps-query_panicking : (q : Statement) → Keeps (catch (query x.driver q) panic_with)
  Keeps-query_panicking q = Keeps-catch (Keeps-query x.driver q) Keeps-panic_with

  Keeps-query_records :
      (e : Entity) (args : Fields) (fields : List AttributeMeta)
      → Keeps (query_records x e args fields)
  unfolding query_records
  Keeps-query_records e args fields = Keeps-if (is_empty fields) (Keeps-done_with _) (
      Keeps->>= (Keeps-with_seed _) (λ q. Keeps->>= (Keeps-query_closing q) (λ rows. Keeps-lift _)))

  pub Keeps-query_total : (e : Entity) (args : Fields) → Keeps (query_total x e args)
  unfolding query_total
  Keeps-query_total e args =
      Keeps->>= (Keeps-with_seed _)
        (λ q. Keeps->>= (Keeps-query_panicking q) (λ rows. Keeps-lift _))

  pub Keeps-query_response :
      (e : Entity) (args : Fields) (fields : List AttributeMeta)
      → Keeps (query_response x e args fields)
  unfolding query_response
  Keeps-query_response e args fields =
      Keeps->>= (Keeps-query_records e args fields)
        (λ nodes. Keeps->>= (Keeps-query_total e args) (λ total. Keeps-done_with _))

  pub Keeps-batch_real_associations :
      (a : Association) (ids : List ℕ) (args : Fields)
      → Keeps (batch_real_associations x a ids args)
  unfolding batch_real_associations
  Keeps-batch_real_associations a ids args = Keeps->>= (Keeps-lift _) (λ e.
      Keeps->>= (Keeps-with_seed _) (λ q. Keeps->>= (Keeps-query_closing q) (λ rows. Keeps-lift _)))

  pub Keeps-query_one : (e : Entity) (args : Fields) → Keeps (query_one x e args)
  unfolding query_one
  Keeps-query_one e args =
      Keeps->>= (Keeps-with_seed _)
        (λ q. Keeps->>= (Keeps-query_panicking q) (λ rows. Keeps-lift _))
