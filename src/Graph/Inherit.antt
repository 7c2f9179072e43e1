-- ===== src/Graph/Inherit.antt =====
-- model/graph/entity.go, interface.go: what an entity or an interface has of its own and inherits.
pub mod Attributes
use entix.Prelude.{
  String, Bool, ◌&&◌, List, [], ◌∷◌, ◌++◌, map, Option, find_first, is_some, is_empty, ◌=?◌,
  if◌then◌else◌,
}
use entix.Meta.{AttributeMeta, MethodMeta}
use entix.Domain
use entix.Graph.{Association, Entity, Interface}
use entix.Graph.Link

unfoldable pub find_attribute : String → List AttributeMeta → Option AttributeMeta
unfolding find_first
find_attribute name = find_first (λ a. a.name =? name)

unfoldable pub find_method : String → List MethodMeta → Option MethodMeta
unfolding find_first
find_method name = find_first (λ m. m.name =? name)

-- The inner loop of `AllAttributes`: what is not there yet, by its name, is appended.
unfoldable pub merge_attributes : List AttributeMeta → List AttributeMeta → List AttributeMeta
unfolding find_attribute
merge_attributes attrs [] = attrs
merge_attributes attrs (a ∷ more) =
    merge_attributes (if is_some (find_attribute a.name attrs) then attrs else attrs ++ a ∷ []) more

-- The outer loop, over interfaces.
unfoldable pub inherit_attributes : List AttributeMeta → List Domain.Class → List AttributeMeta
unfolding merge_attributes
inherit_attributes attrs [] = attrs
inherit_attributes attrs (c ∷ cs) = inherit_attributes (merge_attributes attrs c.attributes) cs

-- `Entity.AllAttributes`
unfoldable pub all_attributes : Entity → List AttributeMeta
unfolding inherit_attributes
all_attributes e = inherit_attributes e.domain.attributes e.interfaces

-- `Interface.AllAttributes`
unfoldable pub all_interface_attributes : Interface → List AttributeMeta
unfolding inherit_attributes
all_interface_attributes f = inherit_attributes f.domain.attributes f.parents

unfoldable pub merge_methods : List MethodMeta → List MethodMeta → List MethodMeta
unfolding find_method
merge_methods methods [] = methods
merge_methods methods (m ∷ more) =
    merge_methods (if is_some (find_method m.name methods) then methods else methods ++ m ∷ []) more

unfoldable pub inherit_methods : List MethodMeta → List Domain.Class → List MethodMeta
unfolding merge_methods
inherit_methods methods [] = methods
inherit_methods methods (c ∷ cs) = inherit_methods (merge_methods methods c.methods) cs

unfoldable pub all_methods : Entity → List MethodMeta
unfolding inherit_methods
all_methods e = inherit_methods e.domain.methods e.interfaces

unfoldable pub all_attribute_names : Entity → List String
unfolding all_attributes
all_attribute_names e = map (λ a. a.name) (all_attributes e)

unfoldable pub get_attribute_by_name : Entity → String → Option AttributeMeta
unfolding all_attributes find_attribute
get_attribute_by_name e name = find_attribute name (all_attributes e)

unfoldable pub get_association_by_name : Entity → String → Option Association
unfolding find_first Link.name
get_association_by_name e name = find_first (λ a. Link.name a =? name) e.associations

unfoldable pub is_emperty : Entity → Bool
unfolding all_attributes
is_emperty e = is_empty (all_attributes e) && is_empty e.associations
