-- ===== src/Meta/Content.antt =====
-- model/meta/meta.go: the content as a model. `new` also writes the application's number into the
-- content's own classes and relations, which the model's point at.
pub mod Packages
use entix.Prelude.{
  ℕ, zero, suc, String, Bool, true, ◌&&◌, List, [], ◌∷◌, map, Option, none, some, Outcome, ok,
  panic, ◌>>=◌, length, find_first, is_some, ◌||◌, ◌==◌, ◌=?◌, if◌then◌else◌,
}
use entix.Meta.{MetaContent, ClassMeta, RelationMeta, PackageMeta, CodeMeta, OrchestrationMeta}
use entix.Meta.Kind

pub record Model : Type 0 where
  pub classes : List ClassMeta
  pub relations : List RelationMeta
  -- An entry that was never written is a nil pointer.
  pub packages : List (Option PackageMeta)
  pub codes : List CodeMeta
  pub orchestrations : List OrchestrationMeta

-- The slots of `make([]*PackageMeta, n)` after the loop that writes the packages into them.
unfoldable pub fill_packages : ℕ → List PackageMeta → Outcome (List (Option PackageMeta))
fill_packages zero [] = ok []
fill_packages (suc n) [] = do rest ← fill_packages n []; ok (none ∷ rest)
fill_packages zero (p ∷ ps) = panic "index out of range"
fill_packages (suc n) (p ∷ ps) = do rest ← fill_packages n ps; ok (some p ∷ rest)

abbrev pub own_class : ℕ → ClassMeta → ClassMeta
own_class app_id c = if c.app_id == 0 then record c { app_id = app_id } else c

abbrev pub own_relation : ℕ → RelationMeta → RelationMeta
own_relation app_id r = if r.app_id == 0 then record r { app_id = app_id } else r

-- The loops over the other slices.
abbrev pub assemble : MetaContent → ℕ → List (Option PackageMeta) → Model
assemble m app_id packages = record {
  classes = map (own_class app_id) m.classes;
  relations = map (own_relation app_id) m.relations;
  packages = packages;
  codes = m.codes;
  orchestrations = m.orchestrations;
}

unfoldable pub new : MetaContent → ℕ → Outcome Model
unfolding fill_packages
new m app_id = do
  packages ← fill_packages (length m.relations) m.packages
  ok (assemble m app_id packages)

abbrev pub get_class_by_uuid : Model → String → Option ClassMeta
unfolding find_first
get_class_by_uuid m uuid = find_first (λ c. c.uuid =? uuid) m.classes

unfoldable pub get_extract_class_by_uuid : Model → String → Option ClassMeta
unfolding find_first
get_extract_class_by_uuid m uuid =
    find_first (λ c. c.uuid =? uuid && c.stereo_type =? Kind.abstract) m.classes

-- The loop reads the `Uuid` of each entry, which panics at a nil pointer.
unfoldable pub find_package : String → List (Option PackageMeta) → Outcome (Option PackageMeta)
find_package uuid [] = ok none
find_package uuid (none ∷ ps) = panic "nil pointer dereference"
find_package uuid (some p ∷ ps) = if p.uuid =? uuid then ok (some p) else find_package uuid ps

unfoldable pub get_package_by_uuid : Model → String → Outcome (Option PackageMeta)
unfolding find_package
get_package_by_uuid m uuid = find_package uuid m.packages

-- relationmeta.go
abbrev pub is_absract : Model → RelationMeta → Bool
unfolding get_extract_class_by_uuid
is_absract m r =
    is_some (get_extract_class_by_uuid m r.source_id)
    || is_some (get_extract_class_by_uuid m r.target_id)
