-- ===== src/Domain.antt =====
-- model/domain/: classes, enums and relations, with inheritance drawn as pointers. A pointer to a
-- class always comes from `GetClassByUuid`, so it is kept as the `Uuid` by which it was found: it
-- points to the first class of that `Uuid`.
pub mod Integral
pub mod Linked
pub mod Parents
use entix.Prelude.{
  ℕ, zero, suc, String, ◌<>◌, Bool, true, false, List, [], ◌∷◌, ◌++◌, map, Option, none, some,
  Outcome, ok, panic, ◌>>=◌, find_first, is_empty, not, ◌||◌, ◌=?◌, if◌then◌else◌,
}
use entix.Meta.{AttributeMeta, MethodMeta, ClassMeta, RelationMeta, AssociationClass}
use entix.Meta.Kind
use entix.Meta.Content

-- class.go; `Attribute` and `Method` are the meta records with a pointer back to their class, which
-- no code of the model follows.
pub record Class : Type 0 where
  pub uuid : String
  pub inner_id : ℕ
  pub stereo_type : String
  pub name : String
  pub description : String
  pub root : Bool
  pub soft_delete : Bool
  pub attributes : List AttributeMeta
  pub methods : List MethodMeta
  pub parents : List String
  pub children : List String
  pub app_id : ℕ
  pub id_no_shift : Bool
  pub on_created : String
  pub on_updated : String
  pub on_deleted : String
  pub enable_version : Bool
  pub package_uuid : String

unfoldable pub new_class : ClassMeta → Class
new_class c = record {
  uuid = c.uuid;
  inner_id = c.inner_id;
  stereo_type = c.stereo_type;
  name = c.name;
  description = c.description;
  root = c.root;
  soft_delete = c.soft_delete;
  attributes = c.attributes;
  methods = c.methods;
  parents = [];
  children = [];
  app_id = c.app_id;
  id_no_shift = c.id_no_shift;
  on_created = c.on_created;
  on_updated = c.on_updated;
  on_deleted = c.on_deleted;
  enable_version = false;
  package_uuid = c.package_uuid;
}

-- enum.go
pub record Enum : Type 0 where
  pub uuid : String
  pub name : String
  pub values : List String
  pub app_id : ℕ

unfoldable pub new_enum : ClassMeta → Enum
new_enum c = record {
  uuid = c.uuid;
  name = c.name;
  values = map (λ a. a.name) c.attributes;
  app_id = c.app_id;
}

-- relation.go; `source` and `target` point to classes.
pub record Relation : Type 0 where
  pub uuid : String
  pub inner_id : ℕ
  pub relation_type : String
  pub source : String
  pub target : String
  pub role_of_target : String
  pub role_of_source : String
  pub description_on_source : String
  pub description_on_target : String
  pub source_mutiplicity : String
  pub target_multiplicity : String
  pub enable_associaiton_class : Bool
  pub association_class : AssociationClass
  pub app_id : ℕ

unfoldable pub new_relation : RelationMeta → Class → Class → Relation
new_relation r s t = record {
  uuid = r.uuid;
  inner_id = r.inner_id;
  relation_type = r.relation_type;
  source = s.uuid;
  target = t.uuid;
  role_of_target = r.role_of_target;
  role_of_source = r.role_of_source;
  description_on_source = r.description_on_source;
  description_on_target = r.description_on_target;
  source_mutiplicity = r.source_mutiplicity;
  target_multiplicity = r.target_multiplicity;
  enable_associaiton_class = r.enable_associaiton_class;
  association_class = r.association_class;
  app_id = r.app_id;
}

-- domain.go
pub record Model : Type 0 where
  pub enums : List Enum
  pub classes : List Class
  pub relations : List Relation

-- `GetClassByUuid`
unfoldable pub get_class_by_uuid : List Class → String → Option Class
unfolding find_first
get_class_by_uuid cs uuid = find_first (λ c. c.uuid =? uuid) cs

-- A write through a pointer to a class.
unfoldable pub update_class : String → (Class → Class) → List Class → List Class
update_class uuid f [] = []
update_class uuid f (c ∷ cs) = if c.uuid =? uuid then f c ∷ cs else c ∷ update_class uuid f cs

unfoldable pub add_parent : String → String → List Class → List Class
unfolding update_class
add_parent child parent = update_class child (λ c. record c { parents = c.parents ++ parent ∷ [] })

unfoldable pub add_child : String → String → List Class → List Class
unfolding update_class
add_child parent child = update_class parent (λ c. record c { children = c.children ++ child ∷ [] })

-- The first loop of `New`.
unfoldable pub sort_classes : List ClassMeta → Model
unfolding new_enum new_class
sort_classes [] = record { enums = []; classes = []; relations = [] }
sort_classes (c ∷ cs) =
    let m = sort_classes cs in
    if c.stereo_type =? Kind.enum
    then record m { enums = new_enum c ∷ m.enums }
    else record m { classes = new_class c ∷ m.classes }

not_integral : RelationMeta → String
not_integral r = "Meta is not integral, can not find class of relation:" <> r.uuid

-- The body of the second loop, from the classes that it found.
unfoldable pub draw_between : RelationMeta → Model → Option Class → Option Class → Outcome Model
unfolding new_relation add_parent add_child not_integral
draw_between r m none tar = panic (not_integral r)
draw_between r m (some src) none = panic (not_integral r)
draw_between r m (some src) (some tar) =
    if r.relation_type =? Kind.inherit
    then ok (record m {
      classes = add_child tar.uuid src.uuid (add_parent src.uuid tar.uuid m.classes);
    })
    else ok (record m { relations = m.relations ++ new_relation r src tar ∷ [] })

unfoldable pub draw_relation : RelationMeta → Model → Outcome Model
unfolding draw_between get_class_by_uuid
draw_relation r m =
    draw_between r m (get_class_by_uuid m.classes r.source_id)
      (get_class_by_uuid m.classes r.target_id)

unfoldable pub draw_relations : List RelationMeta → Model → Outcome Model
draw_relations [] m = ok m
draw_relations (r ∷ rs) m = do next ← draw_relation r m; draw_relations rs next

unfoldable pub new : Content.Model → Outcome Model
unfolding sort_classes draw_relation draw_relations
new m = draw_relations m.relations (sort_classes m.classes)

abbrev pub has_children : Class → Bool
has_children c = not (is_empty c.children)

-- The recursion of `AllParents` over the parents that are left, as deep as the fuel. Go's own
-- recursion ends in a stack overflow where inheritance is a cycle.
unfoldable pub all_parents_of : ℕ → List Class → List String → Outcome (List String)
all_parents_of zero cs ps = panic "stack overflow"
all_parents_of (suc fuel) cs [] = ok []
all_parents_of (suc fuel) cs (p ∷ ps) = elim (get_class_by_uuid cs p) [
  | none ↦ panic "nil pointer dereference"
  | some parent ↦ do
    above ← all_parents_of fuel cs parent.parents
    rest ← all_parents_of (suc fuel) cs ps
    ok (p ∷ above ++ rest)
]

unfoldable pub all_parents : ℕ → List Class → Class → Outcome (List String)
unfolding all_parents_of
all_parents fuel cs c = all_parents_of fuel cs c.parents
