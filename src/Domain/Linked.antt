-- ===== src/Domain/Linked.antt =====
-- model/domain/domain.go: the pointers of a domain model.
use entix.Prelude.{
  String, true, ◌≡◌, refl, ◌∙◌, List, [], ◌∷◌, ◌++◌, Option, none, some, Ensures, Ensures->>=, All,
  All-append, is_some, arith, eq_iff, ◌=?◌, Bool-cases, inl, inr,
}
use mathlib.Core.Path.{subst⁻¹}
use entix.Meta.{ClassMeta, RelationMeta}
use entix.Meta.Kind
use entix.Meta.Content
use entix.Domain.{
  Class, Relation, Model, get_class_by_uuid, update_class, add_parent, add_child, sort_classes,
  new_class, new_relation, draw_between, draw_relation, draw_relations, new,
}

-- A class stands behind a pointer.
abbrev pub Found : List Class → String → Type 0
Found cs uuid = is_some (get_class_by_uuid cs uuid) ≡ true

-- The pointers of a class.
abbrev pub ClassLinked : (String → Type 0) → Class → Type 0
ClassLinked F c = All F c.parents × All F c.children

pub record IsLinked (m : Model) : Type 0 where
  pub inheritance : All (ClassLinked (Found m.classes)) m.classes
  pub relations : All (λ r. Found m.classes r.source × Found m.classes r.target) m.relations

uuid-get_class_by_uuid :
    (cs : List Class) (uuid : String) (c : Class)
    → get_class_by_uuid cs uuid ≡ some c
    → c.uuid ≡ uuid
unfolding get_class_by_uuid
uuid-get_class_by_uuid [] uuid c h = cc
uuid-get_class_by_uuid (d ∷ cs) uuid c h =
    ground (arith, eq_iff d.uuid uuid, uuid-get_class_by_uuid cs uuid c)

found_of_some :
    (cs : List Class) (uuid : String) (c : Class)
    → get_class_by_uuid cs uuid ≡ some c
    → Found cs c.uuid
found_of_some cs uuid c h = rw (uuid-get_class_by_uuid cs uuid c h, h)

module _ (u : String) (f : Class → Class) (same : (c : Class) → (f c).uuid ≡ c.uuid) where
  pub found-update_class :
      (cs : List Class) (v : String)
      → is_some (get_class_by_uuid (update_class u f cs) v) ≡ is_some (get_class_by_uuid cs v)
  unfolding get_class_by_uuid update_class
  found-update_class [] v = refl
  found-update_class (c ∷ cs) v = ground (arith, same c, found-update_class cs v)

  All-update_class :
      (P : Class → Type 0) (cs : List Class)
      → ((c : Class) → P c → P (f c))
      → All P cs
      → All P (update_class u f cs)
  unfolding update_class
  All-update_class P [] keep a = tt
  All-update_class P (c ∷ cs) keep (p, a) = elim (Bool-cases (c.uuid =? u)) [
    | inl e ↦ rw e (keep c p, a)
    | inr e ↦ rw e (p, All-update_class P cs keep a)
  ]

-- Facts that hold of every class found hold after a change that keeps what is found.
All-mono :
    (F G : String → Type 0) → ((s : String) → F s → G s) → (xs : List String) → All F xs → All G xs
All-mono F G h [] a = tt
All-mono F G h (x ∷ xs) (p, a) = (h x p, All-mono F G h xs a)

ClassLinked-mono :
    (F G : String → Type 0)
    → ((s : String) → F s → G s)
    → (cs : List Class) → All (ClassLinked F) cs
    → All (ClassLinked G) cs
ClassLinked-mono F G h [] a = tt
ClassLinked-mono F G h (c ∷ cs) ((p, q), a) =
    ((All-mono F G h c.parents p, All-mono F G h c.children q), ClassLinked-mono F G h cs a)

RelationLinked-mono :
    (F G : String → Type 0)
    → ((s : String) → F s → G s)
    → (rs : List Relation) → All (λ r. F r.source × F r.target) rs
    → All (λ r. G r.source × G r.target) rs
RelationLinked-mono F G h [] a = tt
RelationLinked-mono F G h (r ∷ rs) ((p, q), a) =
    ((h r.source p, h r.target q), RelationLinked-mono F G h rs a)

add_parent_linked :
    (child parent : String) (cs : List Class)
    → Found cs parent
    → All (ClassLinked (Found cs)) cs
    → let cs' = add_parent child parent cs in
      ((s : String) → Found cs s → Found cs' s) × All (ClassLinked (Found cs')) cs'
unfolding add_parent
add_parent_linked child parent cs there a =
    let f = λ (c : Class). record c { parents = c.parents ++ parent ∷ [] } in
    let keep = λ (s : String) (h : Found cs s). found-update_class child f (λ c. refl) cs s ∙ h in
    (
      keep,
      ClassLinked-mono (Found cs) (Found (update_class child f cs)) keep _ (
          All-update_class child f (λ c. refl) (ClassLinked (Found cs)) cs
            (λ c (p, q). (All-append (Found cs) c.parents (parent ∷ []) p (there, tt), q)) a),
    )

add_child_linked :
    (child parent : String) (cs : List Class)
    → Found cs child
    → All (ClassLinked (Found cs)) cs
    → let cs' = add_child parent child cs in
      ((s : String) → Found cs s → Found cs' s) × All (ClassLinked (Found cs')) cs'
unfolding add_child
add_child_linked child parent cs there a =
    let f = λ (c : Class). record c { children = c.children ++ child ∷ [] } in
    let keep = λ (s : String) (h : Found cs s). found-update_class parent f (λ c. refl) cs s ∙ h in
    (
      keep,
      ClassLinked-mono (Found cs) (Found (update_class parent f cs)) keep _ (
          All-update_class parent f (λ c. refl) (ClassLinked (Found cs)) cs
            (λ c (p, q). (p, All-append (Found cs) c.children (child ∷ []) q (there, tt))) a),
    )

inherit-IsLinked :
    (m : Model) (src tar : String)
    → Found m.classes src
    → Found m.classes tar
    → IsLinked m
    → IsLinked (record m { classes = add_child tar src (add_parent src tar m.classes) })
inherit-IsLinked m src tar s t l =
    let (keep, up) = add_parent_linked src tar m.classes t l.inheritance in
    let (keep', down) = add_child_linked src tar (add_parent src tar m.classes) (keep src s) up in
    record {
      inheritance = down;
      relations =
          RelationLinked-mono (Found m.classes) _ (λ u h. keep' u (keep u h)) m.relations
            l.relations;
    }

relate-IsLinked :
    (m : Model) (r : RelationMeta) (src tar : Class)
    → Found m.classes src.uuid
    → Found m.classes tar.uuid
    → IsLinked m
    → IsLinked (record m { relations = m.relations ++ new_relation r src tar ∷ [] })
unfolding new_relation
relate-IsLinked m r src tar s t l = record {
  inheritance = l.inheritance;
  relations =
      All-append (λ (q : Relation). Found m.classes q.source × Found m.classes q.target) m.relations
        (new_relation r src tar ∷ []) l.relations ((s, t), tt);
}

draw_between-IsLinked :
    (r : RelationMeta) (m : Model) (src tar : Option Class)
    → ((c : Class) → src ≡ some c → Found m.classes c.uuid)
    → ((c : Class) → tar ≡ some c → Found m.classes c.uuid)
    → IsLinked m
    → Ensures (draw_between r m src tar) IsLinked
unfolding draw_between
draw_between-IsLinked r m none tar s t l = tt
draw_between-IsLinked r m (some src) none s t l = tt
draw_between-IsLinked r m (some src) (some tar) s t l =
    elim (Bool-cases (r.relation_type =? Kind.inherit)) [
      | inl e ↦ rw e (inherit-IsLinked m src.uuid tar.uuid (s src refl) (t tar refl) l)
      | inr e ↦ rw e (relate-IsLinked m r src tar (s src refl) (t tar refl) l)
    ]

draw_relation-IsLinked :
    (r : RelationMeta) (m : Model) → IsLinked m → Ensures (draw_relation r m) IsLinked
unfolding draw_relation
draw_relation-IsLinked r m =
    draw_between-IsLinked r m _ _ (found_of_some m.classes r.source_id)
      (found_of_some m.classes r.target_id)

draw_relations-IsLinked :
    (rs : List RelationMeta) (m : Model) → IsLinked m → Ensures (draw_relations rs m) IsLinked
unfolding draw_relations
draw_relations-IsLinked [] m l = l
draw_relations-IsLinked (r ∷ rs) m l =
    Ensures->>= IsLinked IsLinked (draw_relation r m) (draw_relations rs)
      (draw_relation-IsLinked r m l) (draw_relations-IsLinked rs)

-- Before the relations are drawn there are no pointers.
abbrev Bare : List Class → Type 0
Bare = All (λ c. (c.parents ≡ []) × (c.children ≡ []))

linked_of_bare : (F : String → Type 0) (cs : List Class) → Bare cs → All (ClassLinked F) cs
linked_of_bare F [] b = tt
linked_of_bare F (c ∷ cs) ((p, q), b) =
    ((subst⁻¹ (All F) p tt, subst⁻¹ (All F) q tt), linked_of_bare F cs b)

sort_classes-Bare :
    (cs : List ClassMeta) → Bare (sort_classes cs).classes × ((sort_classes cs).relations ≡ [])
unfolding sort_classes new_class
sort_classes-Bare [] = (tt, refl)
sort_classes-Bare (c ∷ cs) = elim (Bool-cases (c.stereo_type =? Kind.enum)) [
  | inl e ↦ rw e (sort_classes-Bare cs)
  | inr e ↦ rw e (((refl, refl), (sort_classes-Bare cs).0), (sort_classes-Bare cs).1)
]

sort_classes-IsLinked : (cs : List ClassMeta) → IsLinked (sort_classes cs)
sort_classes-IsLinked cs =
    let (bare, none_yet) = sort_classes-Bare cs in
    record { inheritance = linked_of_bare _ _ bare; relations = subst⁻¹ (All _) none_yet tt }

-- Whatever the meta model, in the domain model that `New` returns every parent, every child and
-- both ends of every relation are classes of the model.
pub new-IsLinked : (m : Content.Model) → Ensures (new m) IsLinked
unfolding new
new-IsLinked m = draw_relations-IsLinked m.relations _ (sort_classes-IsLinked m.classes)
