-- ===== src/Domain/Integral.antt =====
-- model/domain/domain.go: `New` on a content whose relations find their classes.
use entix.Prelude.{
  String, ◌≡◌, refl, ◌∙◌, List, [], ◌∷◌, ◌++◌, some, Outcome, ok, ◌>>=◌, All, ◌=?◌, Bool-cases,
  Option-cases, inl, inr, Ensures,
}
use mathlib.Core.Path.{subst}
use entix.Meta.{RelationMeta}
use entix.Meta.Kind
use entix.Meta.Content
use entix.Domain.{
  Class, Model, get_class_by_uuid, add_parent, add_child, sort_classes, new_relation, draw_between,
  draw_relation, draw_relations, new,
}
use entix.Domain.Linked.{Found, IsLinked, found-update_class, new-IsLinked}

-- The relation finds its two classes.
abbrev pub FindsEnds : List Class → RelationMeta → Type 0
FindsEnds cs r = Found cs r.source_id × Found cs r.target_id

-- The classes that `cs'` has under the `Uuid`s of `cs`.
abbrev Keeps : List Class → List Class → Type 0
Keeps cs cs' = (s : String) → Found cs s → Found cs' s

FindsEnds-Keeps :
    (cs cs' : List Class) (rs : List RelationMeta)
    → Keeps cs cs'
    → All (FindsEnds cs) rs
    → All (FindsEnds cs') rs
FindsEnds-Keeps cs cs' [] keep a = tt
FindsEnds-Keeps cs cs' (r ∷ rs) keep ((s, t), a) =
    ((keep r.source_id s, keep r.target_id t), FindsEnds-Keeps cs cs' rs keep a)

add_parent-Keeps : (child parent : String) (cs : List Class) → Keeps cs (add_parent child parent cs)
unfolding add_parent
add_parent-Keeps child parent cs s h =
    found-update_class child (λ c. record c { parents = c.parents ++ parent ∷ [] }) (λ c. refl) cs s
    ∙ h

add_child-Keeps : (parent child : String) (cs : List Class) → Keeps cs (add_child parent child cs)
unfolding add_child
add_child-Keeps parent child cs s h =
    found-update_class parent (λ c. record c { children = c.children ++ child ∷ [] }) (λ c. refl) cs
      s
    ∙ h

draw_between_ok :
    (r : RelationMeta) (m : Model) (src tar : Class)
    → (d : Model) × (draw_between r m (some src) (some tar) ≡ ok d) × Keeps m.classes d.classes
unfolding draw_between
draw_between_ok r m src tar = elim (Bool-cases (r.relation_type =? Kind.inherit)) [
  | inl e ↦ (
    record m { classes = add_child tar.uuid src.uuid (add_parent src.uuid tar.uuid m.classes) },
    rw e,
    λ s h. add_child-Keeps tar.uuid src.uuid _ s (add_parent-Keeps src.uuid tar.uuid m.classes s h),
  )
  | inr e ↦ (record m { relations = m.relations ++ new_relation r src tar ∷ [] }, rw e, λ s h. h)
]

draw_relation_ok :
    (r : RelationMeta) (m : Model)
    → FindsEnds m.classes r
    → (d : Model) × (draw_relation r m ≡ ok d) × Keeps m.classes d.classes
unfolding draw_relation
draw_relation_ok r m (s, t) = elim (Option-cases (get_class_by_uuid m.classes r.source_id)) [
  | inl e ↦ cc
  | inr (src, e) ↦ elim (Option-cases (get_class_by_uuid m.classes r.target_id)) [
    | inl f ↦ cc
    | inr (tar, f) ↦ rw (e, f) (draw_between_ok r m src tar)
  ]
]

draw_relations_ok :
    (rs : List RelationMeta) (m : Model)
    → All (FindsEnds m.classes) rs
    → (d : Model) × (draw_relations rs m ≡ ok d)
unfolding draw_relations
draw_relations_ok [] m a = (m, refl)
draw_relations_ok (r ∷ rs) m (f, a) =
    let (next, e, keep) = draw_relation_ok r m f in
    let (d, e') = draw_relations_ok rs next (FindsEnds-Keeps m.classes next.classes rs keep a) in
    (d, rw (e, ◌>>=◌) e')

-- If every relation of the content finds its two classes, enums left out, `New` returns a domain
-- model; in it every parent, every child and both ends of every relation are classes of the model.
pub new_integral :
    (m : Content.Model)
    → All (FindsEnds (sort_classes m.classes).classes) m.relations
    → (d : Model) × (new m ≡ ok d) × IsLinked d
new_integral m a =
    let (d, e) : (d : Model) × (new m ≡ ok d) = unfold new in draw_relations_ok m.relations _ a in
    (d, e, subst (λ (o : Outcome Model). Ensures o IsLinked) e (new-IsLinked m))
