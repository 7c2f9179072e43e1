-- ===== src/Schema/Fields/Rooted.antt =====
-- modules/app/schema/query.go, mutation.go: what can be called.
use entix.Prelude.{
  ◌≡◌, refl, String, Bool, true, false, List, [], ◌∷◌, Option, none, some, Outcome, Ensures,
  Ensures->>=, Ensures-any, All, IsIn, ◌⊎◌, inl, inr, Bool-cases, ◌=?◌, is_empty, if◌then◌else◌,
}
use entix.Meta.{OrchestrationMeta}
use entix.Graph.{Entity}
use entix.Graph.Name.{
  query_one_name, delete_name, delete_by_id_name, set_name, upsert_name, upsert_one_name,
}
use entix.Schema.{Field, InputObject, Parser, output_type, find_key, set_field}
use entix.Schema.Output.{entity_list_type}
use entix.Schema.Output.Passwords.{All-set_field}
use entix.Schema.Fields.{
  Fields, method_args, orchestration_type, add_orchestrations, query_name, add_entity_queries,
  add_queries, query_fields, add_setter, add_entity_mutations, add_mutations, mutation_fields,
}

-- Either branch, where the test comes to it.
Ensures-cases {ℓ κ} :
    {A : Type ℓ} (P : A → Type κ) (b : Bool) (x y : Outcome A)
    → (b ≡ true → Ensures x P)
    → (b ≡ false → Ensures y P)
    → Ensures (if b then x else y) P
Ensures-cases P true x y h k = h refl
Ensures-cases P false x y h k = k refl

module _ (P : String → Type 0) where
  abbrev Named : List Field → Type 0
  Named = All (λ f. P f.name)

  abbrev NamedFields : Fields → Type 0
  NamedFields made = Named made.fields

  Named-set_field : (f : Field) (fs : List Field) → P f.name → Named fs → Named (set_field f fs)
  Named-set_field = All-set_field (λ f. P f.name)

  add_orchestrations-Named :
      (es : List Entity) (kind : String) (os : List OrchestrationMeta) (made : Fields)
      → NamedFields made
      → ((o : OrchestrationMeta) → IsIn o os → (o.operate_type =? kind) ≡ true → P o.name)
      → Ensures (add_orchestrations es kind os made) NamedFields
  unfolding add_orchestrations
  add_orchestrations-Named es kind [] made h k = h
  add_orchestrations-Named es kind (o ∷ os) made h k = elim (Bool-cases (o.operate_type =? kind)) [
    | inl e ↦ rw e (
        Ensures->>= (λ _. Unit {0}) NamedFields (orchestration_type es o made.parser) _
          (Ensures-any _)
          (λ t _.
            Ensures->>= (λ _. Unit {0}) NamedFields (method_args es t.0 o.args []) _ (Ensures-any _)
              (λ args _.
                add_orchestrations-Named es kind os _
                  (Named-set_field _ made.fields (k o (inl refl) e) h) (λ p m. k p (inr m)))))
    | inr e ↦ rw e (add_orchestrations-Named es kind os made h (λ p m. k p (inr m)))
  ]

  module _ (plural : String → String) where
    abbrev Queries : Entity → Type 0
    Queries e = P (query_name plural e.domain) × P (query_one_name e.domain)

    add_entity_queries-Named :
        (e : Entity) (made : Fields)
        → NamedFields made
        → Queries e
        → Ensures (add_entity_queries plural e made) NamedFields
    unfolding add_entity_queries
    add_entity_queries-Named e made h (q, r) =
        Ensures->>= (λ _. Unit {0}) NamedFields (entity_list_type e made.parser) _ (Ensures-any _)
          (λ l _.
            Ensures->>= (λ _. Unit {0}) NamedFields (output_type l.0 e.domain.name) _
              (Ensures-any _) (λ out _. Named-set_field _ _ r (Named-set_field _ made.fields q h)))

    add_queries-Named :
        (es : List Entity) (made : Fields)
        → NamedFields made
        → ((e : Entity) → IsIn e es → e.domain.root ≡ true → Queries e)
        → Ensures (add_queries plural es made) NamedFields
    unfolding add_queries
    add_queries-Named [] made h k = h
    add_queries-Named (e ∷ es) made h k =
        Ensures-cases NamedFields e.domain.root _ _
          (λ r.
            Ensures->>= NamedFields NamedFields (add_entity_queries plural e made) _
              (add_entity_queries-Named e made h (k e (inl refl) r))
              (λ m n. add_queries-Named es m n (λ f i. k f (inr i))))
          (λ r. add_queries-Named es made h (λ f i. k f (inr i)))

  abbrev Mutations : Entity → Type 0
  Mutations e =
      P (delete_name e.domain)
      × P (delete_by_id_name e.domain)
      × P (upsert_name e.domain)
      × P (upsert_one_name e.domain)
      × P (set_name e.domain)

  add_setter-Named :
      (o : Option InputObject) (e : Entity) (p : Parser) (fs : List Field)
      → P (set_name e.domain)
      → Named fs
      → Ensures (add_setter o e p fs) Named
  unfolding add_setter
  add_setter-Named none e p fs h k = tt
  add_setter-Named (some o) e p fs h k = elim (Bool-cases (is_empty o.fields)) [
    | inl q ↦ rw q k
    | inr q ↦ rw q (Named-set_field _ fs h k)
  ]

  add_entity_mutations-Named :
      (e : Entity) (made : Fields)
      → NamedFields made
      → Mutations e
      → Ensures (add_entity_mutations e made) NamedFields
  unfolding add_entity_mutations
  add_entity_mutations-Named e made h (d, i, u, o, s) =
      Ensures->>= (λ _. Unit {0}) NamedFields (output_type made.parser e.domain.name) _
        (Ensures-any _)
        (λ out _.
          Ensures->>= Named NamedFields (add_setter _ e made.parser _) _
            (add_setter-Named (find_key e.domain.name made.parser.set_inputs) e made.parser _ s (
              Named-set_field _ _ o
                (Named-set_field _ _ u (Named-set_field _ _ i (Named-set_field _ _ d h)))))
            (λ fs n. n))

  add_mutations-Named :
      (es : List Entity) (made : Fields)
      → NamedFields made
      → ((e : Entity) → IsIn e es → e.domain.root ≡ true → Mutations e)
      → Ensures (add_mutations es made) NamedFields
  unfolding add_mutations
  add_mutations-Named [] made h k = h
  add_mutations-Named (e ∷ es) made h k =
      Ensures-cases NamedFields e.domain.root _ _
        (λ r.
          Ensures->>= NamedFields NamedFields (add_entity_mutations e made) _
            (add_entity_mutations-Named e made h (k e (inl refl) r))
            (λ m n. add_mutations-Named es m n (λ f i. k f (inr i))))
        (λ r. add_mutations-Named es made h (λ f i. k f (inr i)))

-- Of a root entity, or of an orchestration of the kind.
abbrev pub Rooted :
    (Entity → String → Type 0) → String → List Entity → List OrchestrationMeta → String → Type 0
Rooted Belongs kind es os name =
    ((e : Entity) × IsIn e es × (e.domain.root ≡ true) × Belongs e name)
    ⊎ ((o : OrchestrationMeta) × IsIn o os × ((o.operate_type =? kind) ≡ true) × (o.name ≡ name))

abbrev pub IsQueryOf : (String → String) → Entity → String → Type 0
IsQueryOf plural e name = (query_name plural e.domain ≡ name) ⊎ (query_one_name e.domain ≡ name)

abbrev pub IsMutationOf : Entity → String → Type 0
IsMutationOf e name =
    (delete_name e.domain ≡ name)
    ⊎ (delete_by_id_name e.domain ≡ name)
    ⊎ (upsert_name e.domain ≡ name)
    ⊎ (upsert_one_name e.domain ≡ name)
    ⊎ (set_name e.domain ≡ name)

-- Each query is one of the two of a root entity, or an orchestration for queries; each mutation is one
-- of the two uploads, one of the five of a root entity, or an orchestration for mutations.
pub fields-Rooted :
    (plural : String → String) (es : List Entity) (os : List OrchestrationMeta) (p : Parser)
    → Ensures
        (query_fields plural es os p)
        (λ made. All (λ f. Rooted (IsQueryOf plural) "query" es os f.name) made.fields)
      × Ensures (mutation_fields es os p) (λ made.
        All
          (λ f.
            (f.name ≡ "upload")
            ⊎ (f.name ≡ "uploadZip")
            ⊎ Rooted IsMutationOf "mutation" es os f.name)
          made.fields)
unfolding query_fields mutation_fields
fields-Rooted plural es os p = (
  Ensures->>= (NamedFields Q) (NamedFields Q) (add_queries plural es _) _
      (add_queries-Named Q plural es _ tt
        (λ e i r. (inl (e, i, r, inl refl), inl (e, i, r, inr refl))))
      (λ made h. add_orchestrations-Named Q es "query" os made h (λ o i k. inr (o, i, k, refl))),
  Ensures->>= (NamedFields M) (NamedFields M) (add_mutations es _) _
      (add_mutations-Named M es _ (inl refl, (inr (inl refl), tt))
        (λ e i r. (
          of e i r (inl refl),
          of e i r (inr (inl refl)),
          of e i r (inr (inr (inl refl))),
          of e i r (inr (inr (inr (inl refl)))),
          of e i r (inr (inr (inr (inr refl)))),
        )))
      (λ made h.
        add_orchestrations-Named M es "mutation" os made h
          (λ o i k. inr (inr (inr (o, i, k, refl))))),
)
  where
    Q : String → Type 0
    Q = Rooted (IsQueryOf plural) "query" es os

    M : String → Type 0
    M name = (name ≡ "upload") ⊎ (name ≡ "uploadZip") ⊎ Rooted IsMutationOf "mutation" es os name

    of :
        {name : String} (e : Entity)
        → IsIn e es
        → e.domain.root ≡ true
        → IsMutationOf e name
        → M name
    of e i r b = inr (inr (inl (e, i, r, b)))
