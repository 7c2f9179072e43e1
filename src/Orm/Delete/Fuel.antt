-- ===== src/Orm/Delete/Fuel.antt =====
-- orm/delete.go: how deep the deletion of an instance goes.
use mathlib.Core.Path.{subst}
use entix.Prelude.{
  ℕ, zero, suc, ◌≡◌, refl, List, [], ◌∷◌, Option, none, some, Outcome, ok, Ensures, Ensures->>=,
  Ensures-if, Ensures-any, get_elem?, All, inl, inr, null, Fields, end, field, get, Bool-cases,
  Option-cases, ◌=?◌, arith,
}
use entix.Db.{M, ◌>>=◌, lift}
use entix.Graph.{Entity, Association}
use entix.Graph.Link
use entix.Graph.Inherit.{all_attributes}
use entix.Graph.Tables.{new_entity_table}
use entix.Consts
use entix.Data.{
  Instance, AssociationRef, AssociationRefs, no_ref, add_ref, refs_of, id_of, association_of,
  type_entity, new_instance, make_instance, each_ref, find_ref, given_id, has_id_only, new_fields,
}
use entix.Orm.Convert.{convert_rows}
use entix.Orm.Convert.Keeps.{Unnamed, Keeps, convert_rows-Keeps}
use entix.Db.Comes.{Comes, Comes->>=, Comes-lift_ok, Comes-lift, Ensures-self, bind_cong}
use entix.Orm.Session.{Context, query_associated_instances}
use entix.Orm.Delete.{delete_instance, delete_refs, delete_associated_instances, each_row}

-- The entity's associations have other names than its attributes.
abbrev pub IsPlain : Entity → Type 0
IsPlain e = All (λ a. Unnamed (Link.name a) (all_attributes e)) e.associations

All-map :
    {A : Type 0} (P Q : A → Type 0) (xs : List A) → All P xs → ((a : A) → P a → Q a) → All Q xs
All-map P Q [] h f = tt
All-map P Q (a ∷ as') (h, hs) f = (f a h, All-map P Q as' hs f)

module _ (x : Context) where
  find_ref-null :
      (a : Association) (m : Fields)
      → get m (Link.name a) ≡ null
      → find_ref x.environment x.heap a m ≡ ok none
  unfolding find_ref get
  find_ref-null a end h = refl
  find_ref-null a (field k v m) h = elim (Bool-cases (k =? Link.name a)) [
    | inl e ↦ rw e (let n : v ≡ null = rw e at h in rw n refl)
    | inr e ↦ rw e (find_ref-null a m (rw e at h))
  ]

  each_ref-none :
      (find : Association → Outcome (Option AssociationRef)) (as' : List Association)
      → All (λ a. find a ≡ ok none) as'
      → each_ref x.environment find as' ≡ ok no_ref
  unfolding each_ref
  each_ref-none find [] h = refl
  each_ref-none find (a ∷ as') (h, more) = rw (h, each_ref-none find as' more) refl

  make_instance-no_ref :
      (e : Entity) (m : Fields)
      → Ensures (make_instance x.environment e m (ok no_ref)) (λ j. refs_of j ≡ no_ref)
  unfolding make_instance
  make_instance-no_ref e m =
      Ensures->>= (λ _. Unit {0}) (λ j. refs_of j ≡ no_ref)
        (given_id x.environment (get m Consts.id)) _ (Ensures-any _)
        (λ id _.
          Ensures-if (λ j. refs_of j ≡ no_ref) (has_id_only id m) _ _ refl
            (Ensures->>= (λ _. Unit {0}) (λ j. refs_of j ≡ no_ref)
              (new_fields x.environment m (new_entity_table e).columns) _ (Ensures-any _)
              (λ fs _. refl)))

  -- What a row is made into has no associations.
  new_instance-no_ref :
      (e : Entity) (m : Fields)
      → IsPlain e
      → Keeps x.reader (all_attributes e) end m
      → Ensures (new_instance x.environment x.heap m e) (λ j. refs_of j ≡ no_ref)
  unfolding new_instance get
  new_instance-no_ref e m plain keeps =
      rw
        (each_ref-none (λ a. find_ref x.environment x.heap a m) e.associations
          (All-map _ _ e.associations plain (λ a far. find_ref-null a m (keeps (Link.name a) far))))
        (make_instance-no_ref e m)

  delete_instance-leaf :
      (f g : ℕ) (j : Instance)
      → refs_of j ≡ no_ref
      → delete_instance x (suc f) j ≡ delete_instance x (suc g) j
  unfolding delete_instance delete_refs
  delete_instance-leaf f g j h = rw h refl

  type_entity-IsPlain :
      (es : List Entity) (n : ℕ) (e : Entity) → All IsPlain es → get_elem? es n ≡ some e → IsPlain e
  type_entity-IsPlain [] n e h k = cc
  type_entity-IsPlain (d ∷ ds) zero e (h, hs) k = subst IsPlain (cc) h
  type_entity-IsPlain (d ∷ ds) (suc n) e (h, hs) k = type_entity-IsPlain ds n e hs k

  found-IsPlain :
      (r : AssociationRef) (e : Entity)
      → All IsPlain x.heap
      → type_entity x.heap (association_of r) ≡ ok e
      → IsPlain e
  unfolding type_entity
  found-IsPlain r e plain h =
      let place = (Link.type_entity (association_of r)).place in
      elim (Option-cases (get_elem? x.heap place)) [
        | inl n ↦ absurd (ground (arith, n, h))
        | inr (d, n) ↦ type_entity-IsPlain x.heap place e plain (ground (arith, n, h))
      ]

  rows_keep :
      (r : AssociationRef) (id : ℕ) (e : Entity)
      → type_entity x.heap (association_of r) ≡ ok e
      → Comes (query_associated_instances x r id) (All (Keeps x.reader (all_attributes e) end))
  unfolding query_associated_instances
  rows_keep r id e h = rw h (
      Comes-lift_ok _ (
        Comes->>= _ (λ owner. Comes->>= _ (λ type. Comes->>= _ (λ rows.
          Comes-lift (convert_rows x.reader (all_attributes e) rows) _
            (convert_rows-Keeps x.reader (all_attributes e) rows))))))

  each_row_cong :
      (act act' : Fields → M (Unit {0})) (rows : List Fields)
      → All (λ row. act row ≡ act' row) rows
      → each_row act rows ≡ each_row act' rows
  unfolding each_row
  each_row_cong act act' [] h = refl
  each_row_cong act act' (row ∷ rows) (h, hs) = rw (h, each_row_cong act act' rows hs) refl

  module _ (f g : ℕ) where
    row_same :
        (e : Entity) (row : Fields)
        → IsPlain e
        → Keeps x.reader (all_attributes e) end row
        → (lift (new_instance x.environment x.heap row e) >>= delete_instance x (suc f))
          ≡ (lift (new_instance x.environment x.heap row e) >>= delete_instance x (suc g))
    row_same e row plain keeps =
        bind_cong (Comes-lift _ (λ j. refs_of j ≡ no_ref) (new_instance-no_ref e row plain keeps))
          (delete_instance-leaf f g)

    rest_same :
        (r : AssociationRef) (id : ℕ)
        → All IsPlain x.heap
        → delete_associated_instances x (delete_instance x (suc f)) r id
          ≡ delete_associated_instances x (delete_instance x (suc g)) r id
    unfolding delete_associated_instances
    rest_same r id plain =
        bind_cong
          (Comes-lift _ (λ e. type_entity x.heap (association_of r) ≡ ok e) (Ensures-self _))
          (λ e found. bind_cong (rows_keep r id e found) (λ rows keep. each_row_cong _ _ rows (
            All-map _ _ rows keep
              (λ row keeps. row_same e row (found-IsPlain r e plain found) keeps))))

    refs_same :
        (rs : AssociationRefs) (id : ℕ)
        → All IsPlain x.heap
        → delete_refs x (delete_instance x (suc f)) rs id
          ≡ delete_refs x (delete_instance x (suc g)) rs id
    unfolding delete_refs
    refs_same no_ref id plain = refl
    refs_same (add_ref r more) id plain = rw (rest_same r id plain, refs_same more id plain) refl

  -- If no entity has an association with the name of an attribute, two steps of fuel are enough to
  -- delete an instance: with more, the same calls are made.
  pub delete_instance-enough :
      (i : Instance) (f : ℕ)
      → All IsPlain x.heap
      → delete_instance x (suc (suc f)) i ≡ delete_instance x 2 i
  unfolding delete_instance
  delete_instance-enough i f plain = rw (refs_same f 0 (refs_of i) (id_of i) plain) refl
