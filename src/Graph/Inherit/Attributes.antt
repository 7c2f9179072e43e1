-- ===== src/Graph/Inherit/Attributes.antt =====
-- model/graph/entity.go: `AllAttributes`.
use entix.Prelude.{
  String, ◌≡◌, refl, ◌∙◌, true, false, List, [], ◌∷◌, ◌++◌, none, is_some, arith, eq_iff,
  if◌then◌else◌, Bool-cases, inl, inr,
}
use mathlib.Core.List.{append-nil}
use entix.Meta.{AttributeMeta}
use entix.Domain
use entix.Graph.{Entity}
use entix.Graph.Inherit.{
  find_attribute, merge_attributes, inherit_attributes, all_attributes, get_attribute_by_name,
}

-- No two attributes of a list have one name.
abbrev pub NodupNames : List AttributeMeta → Type 0
NodupNames [] = Unit
NodupNames (a ∷ as') = (find_attribute a.name as' ≡ none) × NodupNames as'

find_attribute-append :
    (n : String) (xs ys : List AttributeMeta)
    → find_attribute n (xs ++ ys)
      ≡ (if is_some (find_attribute n xs) then find_attribute n xs else find_attribute n ys)
unfolding find_attribute
find_attribute-append n [] ys = refl
find_attribute-append n (x ∷ xs) ys = ground (arith, find_attribute-append n xs ys)

skip :
    (n : String) (y : AttributeMeta) (xs ys : List AttributeMeta)
    → is_some (find_attribute y.name xs) ≡ true
    → (if is_some (find_attribute n xs) then find_attribute n xs else find_attribute n ys)
      ≡ (if is_some (find_attribute n xs) then find_attribute n xs else find_attribute n (y ∷ ys))
unfolding find_attribute
skip n y xs ys h = ground (arith, eq_iff y.name n)

add :
    (n : String) (y : AttributeMeta) (xs ys : List AttributeMeta)
    → is_some (find_attribute y.name xs) ≡ false
    → (if is_some (find_attribute n (xs ++ y ∷ []))
        then find_attribute n (xs ++ y ∷ [])
        else find_attribute n ys)
      ≡ (if is_some (find_attribute n xs) then find_attribute n xs else find_attribute n (y ∷ ys))
add n y xs ys h = rw find_attribute-append (unfold find_attribute in ground arith)

-- A name that is found keeps what is found of it.
find_attribute-merge_attributes :
    (n : String) (xs ys : List AttributeMeta)
    → find_attribute n (merge_attributes xs ys)
      ≡ (if is_some (find_attribute n xs) then find_attribute n xs else find_attribute n ys)
unfolding merge_attributes
find_attribute-merge_attributes n xs [] = ground arith
find_attribute-merge_attributes n xs (y ∷ ys) =
    elim (Bool-cases (is_some (find_attribute y.name xs))) [
      | inl there ↦ rw there (find_attribute-merge_attributes n xs ys ∙ skip n y xs ys there)
      | inr absent ↦
          rw absent (find_attribute-merge_attributes n (xs ++ y ∷ []) ys ∙ add n y xs ys absent)
    ]

abbrev pub declared_by : List Domain.Class → List AttributeMeta
declared_by [] = []
declared_by (c ∷ cs) = c.attributes ++ declared_by cs

find_attribute-inherit_attributes :
    (n : String) (xs : List AttributeMeta) (cs : List Domain.Class)
    → find_attribute n (inherit_attributes xs cs) ≡ find_attribute n (xs ++ declared_by cs)
unfolding inherit_attributes
find_attribute-inherit_attributes n xs [] = rw append-nil
find_attribute-inherit_attributes n xs (c ∷ cs) = ground (
  arith,
  find_attribute-inherit_attributes n (merge_attributes xs c.attributes) cs,
  find_attribute-append n (merge_attributes xs c.attributes) (declared_by cs),
  find_attribute-merge_attributes n xs c.attributes,
  find_attribute-append n xs (c.attributes ++ declared_by cs),
  find_attribute-append n c.attributes (declared_by cs),
)

-- Of an attribute's name an entity knows the first declaration: its own, or else that of the first
-- of its interfaces that has one; a name that none of them declares is unknown.
pub get_attribute_by_name-declared :
    (e : Entity) (n : String)
    → get_attribute_by_name e n ≡ find_attribute n (e.domain.attributes ++ declared_by e.interfaces)
unfolding get_attribute_by_name all_attributes
get_attribute_by_name-declared e n =
    find_attribute-inherit_attributes n e.domain.attributes e.interfaces

NodupNames-snoc :
    (xs : List AttributeMeta) (y : AttributeMeta)
    → NodupNames xs
    → is_some (find_attribute y.name xs) ≡ false
    → NodupNames (xs ++ y ∷ [])
NodupNames-snoc [] y u h = (unfold find_attribute in refl, tt)
NodupNames-snoc (x ∷ xs) y (fresh, u) h = (
  rw find_attribute-append
      (unfold find_attribute in ground (arith, eq_iff x.name y.name, eq_iff y.name x.name)),
  NodupNames-snoc xs y u (unfold find_attribute in ground arith),
)

NodupNames-merge_attributes :
    (xs ys : List AttributeMeta) → NodupNames xs → NodupNames (merge_attributes xs ys)
unfolding merge_attributes
NodupNames-merge_attributes xs [] u = u
NodupNames-merge_attributes xs (y ∷ ys) u = elim (Bool-cases (is_some (find_attribute y.name xs))) [
  | inl there ↦ rw there (NodupNames-merge_attributes xs ys u)
  | inr absent ↦
      rw absent (NodupNames-merge_attributes (xs ++ y ∷ []) ys (NodupNames-snoc xs y u absent))
]

NodupNames-inherit_attributes :
    (xs : List AttributeMeta) (cs : List Domain.Class)
    → NodupNames xs
    → NodupNames (inherit_attributes xs cs)
unfolding inherit_attributes
NodupNames-inherit_attributes xs [] u = u
NodupNames-inherit_attributes xs (c ∷ cs) u =
    NodupNames-inherit_attributes (merge_attributes xs c.attributes) cs
      (NodupNames-merge_attributes xs c.attributes u)

-- If the names of an entity's own attributes differ, so do those of all its attributes, inherited
-- ones included.
pub all_attributes-NodupNames :
    (e : Entity) → NodupNames e.domain.attributes → NodupNames (all_attributes e)
unfolding all_attributes
all_attributes-NodupNames e = NodupNames-inherit_attributes e.domain.attributes e.interfaces
