-- ===== src/Tests/Models.antt =====
-- The theorems on the content, the domain model and the graph model, at the samples.
use entix.Prelude.{
  ℕ, ◌+◌, ◌<◌, ◌≤◌, ◌≡◌, refl, String, ◌=?◌, false, List, [], ◌∷◌, ok, ◌↔◌, if◌then◌else◌,
  Bool-cases, IsIn, arith, length, inl, inr, eq_iff, panic, ◌-◌, ◌<>◌, true,
}
use entix.Utils.Id.{encode_base_id, decode_entity_inner_id}
use entix.Utils.Id.Layout.{decode_entity_inner_id-encode_base_id, encode_base_id_unique}
use Prim.Native.Char.{Char, code}
use entix.Utils.Names.{snake_string, first_lower, first_upper, is_lower}
use entix.Utils.Names.Snake.{
  snake_string_idem, has_word, single, added, snake_string-append, first_upper-capital,
}
use entix.Meta.Content
use entix.Meta.Content.Packages.{new_total}
use entix.Domain
use entix.Domain.Integral.{new_integral}
use entix.Domain.Linked.{IsLinked}
use entix.Domain.Parents.{Above, all_parents-Above}
use entix.Domain.Parents.Acyclic.{Ranked, all_parents-new}
use entix.Tests.Samples.{content, meta_model, user, role, base, has_roles}

decode_entity_inner_id-encode_base_id_example :
    decode_entity_inner_id 1 (encode_base_id 1 5 false + 3) ≡ 5
decode_entity_inner_id-encode_base_id_example =
    decode_entity_inner_id-encode_base_id 1 5 3 (omega arith) (omega arith)
      (unfold encode_base_id in omega arith) (unfold encode_base_id in omega arith)

encode_base_id_unique_example :
    let s : ℕ = 1 in let e : ℕ = 5 in let n : ℕ = 3 in (s ≡ s) × (e ≡ e) × (n ≡ n)
encode_base_id_unique_example =
    encode_base_id_unique 1 1 5 5 3 3 (omega arith) (omega arith) (omega arith) (omega arith)
      (omega arith) (omega arith) refl

snake_string_idem_example :
    snake_string (snake_string "ClassAuthConfig") ≡ snake_string "ClassAuthConfig"
snake_string_idem_example = snake_string_idem "ClassAuthConfig"

snake_string-append_example :
    (snake_string ("Class" <> single "A") ≡ snake_string "Class" <> added (has_word "Class") "A")
    × (snake_string "" ≡ "")
snake_string-append_example = snake_string-append "Class" "A"

first_upper-capital_example :
    ((d : Char) × (first_upper "role" ≡ String.◌∷◌ d "ole")
      × (code d ≡ (if is_lower "r" then code "r" - 32 else code "r")))
    × (is_lower "r" ≡ true → first_lower (first_upper "role") ≡ "role")
first_upper-capital_example = first_upper-capital "r" "ole" refl

new_total_example :
    (length content.packages ≤ length content.relations
      → (r : Content.Model) × (Content.new content 7 ≡ ok r))
    × (length content.relations < length content.packages
        → Content.new content 7 ≡ panic "index out of range")
new_total_example = new_total content 7

new_integral_example : (d : Domain.Model) × (Domain.new meta_model ≡ ok d) × IsLinked d
unfolding Domain.sort_classes Domain.get_class_by_uuid
new_integral_example = new_integral meta_model ((refl, refl), ((refl, refl), tt))

-- The classes, with the inheritance drawn.
abbrev drawn_user : Domain.Class
unfolding Domain.new_class
drawn_user = record (Domain.new_class user) { parents = "b" ∷ [] }

abbrev drawn_base : Domain.Class
unfolding Domain.new_class
drawn_base = record (Domain.new_class base) { children = "u" ∷ [] }

abbrev drawn_role : Domain.Class
unfolding Domain.new_class
drawn_role = Domain.new_class role

abbrev classes : List Domain.Class
classes = drawn_user ∷ drawn_role ∷ drawn_base ∷ []

rank : String → ℕ
rank u = if u =? "u" then 1 else 0

classes-Ranked : Ranked classes rank
unfolding rank Domain.get_class_by_uuid drawn_user drawn_role drawn_base Domain.new_class
classes-Ranked u c h = elim (Bool-cases ("u" =? u)) [
  | inl here ↦
      let e : c ≡ drawn_user = ground (arith, here) in rw e (ground (arith, eq_iff "u" u, here), tt)
  | inr other ↦ elim (Bool-cases ("r" =? u)) [
    | inl here ↦ let e : c ≡ drawn_role = ground (arith, here, other) in rw e tt
    | inr neither ↦ let e : c ≡ drawn_base = ground (arith, neither, other) in rw e tt
  ]
]

-- The user inherits from the base.
abbrev drawn_model : Domain.Model
unfolding Domain.new_relation drawn_user drawn_role drawn_base
drawn_model = record {
  enums = [];
  classes = classes;
  relations = Domain.new_relation has_roles drawn_user drawn_role ∷ [];
}

all_parents-new_example : (r : List String) × (Domain.all_parents 2 classes drawn_user ≡ ok r)
unfolding Domain.new rank Domain.sort_classes Domain.draw_relations Domain.get_class_by_uuid
    drawn_model drawn_user drawn_role drawn_base
all_parents-new_example =
    all_parents-new meta_model drawn_model rank "u" drawn_user 1 refl classes-Ranked refl
      (omega arith)

all_parents-Above_example : IsIn {A = String} "b" ("b" ∷ []) ↔ Above classes ("b" ∷ []) "b"
unfolding Domain.all_parents Domain.get_class_by_uuid drawn_user
all_parents-Above_example = all_parents-Above classes 2 drawn_user ("b" ∷ []) "b" refl
