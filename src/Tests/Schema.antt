-- ===== src/Tests/Schema.antt =====
-- The theorems on the GraphQL types, at the samples.
use entix.Prelude.{◌≡◌, ◌⊎◌, String, ◌<>◌, List, [], ◌∷◌, Ensures, All}
use entix.Meta.{AttributeMeta}
use entix.Meta.TypeName
use entix.Domain
use entix.Schema.Property.{attribute_exp}
use entix.Schema.Offered.{Offers, attribute_exp-Offers}
use entix.Schema.Output.{output_fields}
use entix.Schema.Output.Passwords.{Shows, output_fields-Shows}
use entix.Schema.{empty_parser}
use entix.Schema.Fields.{query_fields, mutation_fields}
use entix.Schema.Fields.Rooted.{Rooted, IsQueryOf, IsMutationOf, fields-Rooted}
use entix.Tests.Queries.{role}
use entix.Tests.Samples.{attribute}

abbrev secret : AttributeMeta
secret = attribute "6" "secret" TypeName.password

abbrev attributes : List AttributeMeta
attributes = attribute "5" "name" TypeName.string ∷ secret ∷ []

abbrev color : Domain.Enum
color = record { uuid = "7"; name = "Color"; values = "red" ∷ []; app_id = 0 }

abbrev colored : AttributeMeta
colored = record (attribute "8" "color" TypeName.enum) { type_uuid = "7" }

attribute_exp-Offers_example : Ensures (attribute_exp (color ∷ []) colored []) Offers
attribute_exp-Offers_example = attribute_exp-Offers (color ∷ []) colored [] tt

output_fields-Shows_example : Ensures (output_fields attributes) (All (Shows attributes))
output_fields-Shows_example = output_fields-Shows attributes

abbrev plural : String → String
plural name = name <> "s"

fields-Rooted_example :
    Ensures
      (query_fields plural (role ∷ []) [] empty_parser)
      (λ made. All (λ f. Rooted (IsQueryOf plural) "query" (role ∷ []) [] f.name) made.fields)
    × Ensures (mutation_fields (role ∷ []) [] empty_parser) (λ made.
      All
        (λ f.
          (f.name ≡ "upload")
          ⊎ (f.name ≡ "uploadZip")
          ⊎ Rooted IsMutationOf "mutation" (role ∷ []) [] f.name)
        made.fields)
fields-Rooted_example = fields-Rooted plural (role ∷ []) [] empty_parser
