-- ===== src/Orm/Session/Within.antt =====
-- orm/session.go: reading and writing work within the transaction that is open.
use entix.Prelude.{ℕ, String, List, Outcome, ok, err, panic, Value}
use entix.Db.{Statement, State, value, error, panics, catch, query}
use entix.Db.Works.{
  Works, Works->>=, Works-lift, Works-catch, Works-exec, Works-query, Works-done_with,
  Works-panic_with, Leaves-same, inside, Leaves,
}
use entix.Data.{AssociationRef}
use entix.Graph.{Entity}
use entix.Orm.Session.{
  Context, no_args, closes_nil, with_seed, exec_or_panic, query_count, query_one, query_one_by_id,
  query_associated_instances, query_by_ids, Seeded, with_built,
}

Leaves-with_built :
    (o : Outcome Seeded) (base : State) (body : List Statement) (seed : ℕ)
    → Leaves base body (with_built o (inside base body seed))
Leaves-with_built (ok q) base body seed =
    Leaves-same {V = Statement} base body q.seed
      (value (record { sql = q.exp.text; args = q.exp.params })) tt
Leaves-with_built (err m) base body seed = Leaves-same {V = Statement} base body seed (error m) tt
Leaves-with_built (panic m) base body seed =
    Leaves-same {V = Statement} base body seed (panics m) tt

Works-with_seed : (build : ℕ → Outcome Seeded) → Works (with_seed build)
unfolding with_seed
Works-with_seed build = record {
  leaves = λ base body seed. Leaves-with_built (build seed) base body seed;
}

Works-closes_nil {κ} : {V : Type κ} (message : String) → Works {V = V} (closes_nil message)
unfolding closes_nil
Works-closes_nil message = Works-panic_with _

module _ (x : Context) where
  pub Works-exec_or_panic : (sql : String) → Works (exec_or_panic x sql)
  unfolding exec_or_panic
  Works-exec_or_panic sql = Works-catch (Works-exec x.driver (no_args sql)) Works-panic_with

  pub Works-query_closing : (q : Statement) → Works (catch (query x.driver q) closes_nil)
  Works-query_closing q = Works-catch (Works-query x.driver q) Works-closes_nil

  pub Works-query_count : (sql : String) → Works (query_count x sql)
  unfolding query_count
  Works-query_count sql = Works->>= (Works-query_closing (no_args sql)) (λ rows. Works-done_with _)

  pub Works-query_one_by_id : (e : Entity) (id : Value) → Works (query_one_by_id x e id)
  unfolding query_one_by_id query_one
  Works-query_one_by_id e id = Works->>= (Works-with_seed _) (λ q.
      Works->>= (Works-catch (Works-query x.driver q) Works-panic_with) (λ rows. Works-lift _))

  pub Works-query_associated_instances :
      (r : AssociationRef) (owner_id : ℕ) → Works (query_associated_instances x r owner_id)
  unfolding query_associated_instances
  Works-query_associated_instances r owner_id = Works->>= (Works-lift _) (λ e.
      Works->>= (Works-lift _) (λ owner.
        Works->>= (Works-lift _)
          (λ type. Works->>= (Works-query_closing _) (λ rows. Works-lift _))))

  pub Works-query_by_ids : (e : Entity) (ids : List Value) → Works (query_by_ids x e ids)
  unfolding query_by_ids
  Works-query_by_ids e ids = Works->>= (Works-query_closing _) (λ rows. Works-lift _)
