-- ===== src/Schema/Output/Passwords.antt =====
-- modules/app/schema/parser/query.go: no object type shows a password.
use entix.Prelude.{
  ◌≡◌, refl, false, List, [], ◌∷◌, Ensures, Ensures->>=, Ensures-any, All, IsIn, inl, inr,
  Bool-cases, ◌=?◌,
}
use entix.Meta.{AttributeMeta}
use entix.Meta.TypeName
use entix.Schema.{Field, set_field}
use entix.Schema.Property.{property_type}
use entix.Schema.Output.{add_outputs, output_fields}

-- The field stands for one of the attributes, which is no password.
abbrev pub Shows : List AttributeMeta → Field → Type 0
Shows attrs f =
    (a : AttributeMeta) × IsIn a attrs × (a.name ≡ f.name) × ((a.type =? TypeName.password) ≡ false)

pub All-set_field :
    (P : Field → Type 0) (f : Field) (fs : List Field) → P f → All P fs → All P (set_field f fs)
unfolding set_field
All-set_field P f [] h hs = (h, tt)
All-set_field P f (g ∷ gs) h (k, ks) = elim (Bool-cases (g.name =? f.name)) [
  | inl e ↦ rw e (h, ks)
  | inr e ↦ rw e (k, All-set_field P f gs h ks)
]

-- The attributes that are still to come are among those.
abbrev Among : List AttributeMeta → List AttributeMeta → Type 0
Among all more = (a : AttributeMeta) → IsIn a more → IsIn a all

add_outputs-Shows :
    (all more : List AttributeMeta) (fs : List Field)
    → Among all more
    → All (Shows all) fs
    → Ensures (add_outputs more fs) (All (Shows all))
unfolding add_outputs
add_outputs-Shows all [] fs among h = h
add_outputs-Shows all (a ∷ as') fs among h = elim (Bool-cases (a.type =? TypeName.password)) [
  | inl e ↦ rw e (add_outputs-Shows all as' fs (λ b m. among b (inr m)) h)
  | inr e ↦ rw e (
      Ensures->>= (λ _. Unit {0}) (All (Shows all)) (property_type a.type) _ (Ensures-any _)
        (λ t _.
          add_outputs-Shows all as' _ (λ b m. among b (inr m))
            (All-set_field (Shows all) _ fs (a, among a (inl refl), refl, e) h)))
]

-- Whatever the attributes, each field that OutputFields makes of them has the name of one that is no
-- password.
pub output_fields-Shows :
    (attrs : List AttributeMeta) → Ensures (output_fields attrs) (All (Shows attrs))
unfolding output_fields
output_fields-Shows attrs = add_outputs-Shows attrs attrs [] (λ a m. m) tt
