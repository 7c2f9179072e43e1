-- ===== src/Tests/Migrations.antt =====
-- The theorem on a migration, at the samples.
use entix.Prelude.{String, List, [], ◌∷◌, Option, none, some, length, ltb, if◌then◌else◌}
use entix.Table.{Table}
use entix.Diff.{Diff, create_diff}
use entix.Orm.Migrate.{migrage}
use entix.Orm.Migrate.Reports.{Ends, migrage-Reported}
use entix.Tests.Graphs.{users, users_next}

abbrev roles : Table
roles = record users { uuid = "r"; name = "a7_role" }

abbrev diff : Diff
diff = create_diff (users ∷ []) (users_next ∷ roles ∷ [])

-- The database refuses the third statement.
abbrev answer : List String → String → Option String
answer history sql = if ltb (length history) 2 then none else some "refused"

abbrev format : String → String
format text = text

migrage-Reported_example : Ends answer format 1 none diff [] (migrage answer format 1 none diff [])
migrage-Reported_example = migrage-Reported answer format 1 none diff []
