-- ===== src/Lib.antt =====
-- entix: a verification library of the entify server, a low-code back end. Its users draw classes and
-- relations; the server turns them into database tables and into an API that queries and saves
-- instances. The library models the way from the drawing to the API, and from a call of the API to the
-- statements that are sent to MySQL:
--
--   stored content -> domain model -> graph model -> tables -> difference -> migration
--   domain and graph model -> GraphQL types, queries and mutations
--   arguments of a call + access -> tree of joined tables -> condition, statement, parameters -> rows
--   arguments of a call -> instances with associations -> statements in one transaction
--
-- Prelude     What the modules share. Prelude/Results: what a Go call comes to, a value, an `error` or
--             a panic. Prelude/Dynamic: Go's `interface{}` and `map[string]interface{}`, the map as its
--             entries in the order of one `range`. Prelude/Text: `strings.Join` and `%d`.
-- Consts      consts/consts.go.
-- Utils       utils/id.go (EncodeBaseId, DecodeEntityInnerId on 64 bits; the number of the service,
--             which the configuration holds, is an argument) and utils/string.go (FirstUpper,
--             FirstLower on the first byte, SnakeString on ASCII letters). Proofs: Id/Layout, Names/Snake.
-- Meta        model/meta: the stored content; Content models meta.go. Proofs: Content/Packages.
-- Domain      model/domain: `New` and `AllParents`. A pointer to a class is its `Uuid`, by which it was
--             found. Proofs: Linked, Integral (what `New` returns), Parents, Parents/Acyclic.
-- Table       model/table.
-- Graph       model/graph. Build models graph.go: a pointer to an entity is its place in the model.
--             Link models association.go, Inherit entity.go and interface.go, Name class.go, Tables
--             table.go, Args args.go, where the tree that the program grows in place is passed on
--             with the counter of `CreateId`. Proofs: Link/Ends, Inherit/Attributes, Args/Distinct,
--             Build/Relations, Build/SelfRelation, Build/Wiring.
-- Model       model/model.go.
-- Diff        model/diff.go. Proofs: Columns, Tables.
-- Data        model/data: NewInstance with the associations to save; Povit models the rows of pivot
--             tables. Proofs: Povit/Row.
-- Db          db/dbx.go: Open, BeginTx, Commit, Rollback, ClearTx, Exec and Query over a state that
--             holds the connection, the transaction and the statements that the server stores. A call
--             ends with a value, an error, a panic or the process. Proofs: Works (within a transaction),
--             Comes (what a call comes to).
-- Mysql       db/dialect/mysql: Where models BuildFieldExp, BuildBoolExp and BuildWhereSQL, Select the
--             other statements of query.go, Change insert.go, update.go and delete.go, ColumnType and
--             Migration migration.go. Proofs: Where/Marks, Where/Asks (what is asked of a condition),
--             Where/Filled, Where/Whole, Change/Columns.
-- Orm         orm: Query models the statements of query.go, Read and Session their rows, Convert
--             convert.go, Delete delete.go, Save save.go, Migrate migrate.go, over a server that answers
--             a statement from what it was sent before. Proofs: Query/Arguments, Read/Keeps,
--             Session/Within, Convert/Fits, Convert/Panics, Convert/Keeps, Delete/Within, Delete/Fuel,
--             Save/Within, Migrate/Rollback, Migrate/Reports.
-- Service     service: Query models canReadEntity, mergeWhereArgs and QueryEntity up to the statements,
--             over the session's query for the access rows, Read all queries with their rows, Change
--             save.go and delete.go. json.Unmarshal is an argument. Proofs: Query/Access, Read/Keeps,
--             Change/Transaction, Change/Atomic, Change/Refused.
-- Resolve     modules/app/resolve: Mutation models mutation.go, Query query.go and graphql.go, Loader
--             loaders.go; Event is what model/observer is told. Proofs: Mutation/Idle, Loader/Groups.
-- Schema      modules/app/schema: the types of parser/ (Comparison, Property, Aggregate, Arguments,
--             Input, Output, where ParseModel is), and the queries and mutations (Fields). Proofs:
--             Offered, Output/Passwords, Fields/Rooted.
-- Config      config. Proofs: Fallback.
-- Tests       Samples, runs at samples, and the theorems at the samples.
--
-- Numbers are natural numbers; where the code computes on uint64 the wrap-around is written out. The
-- loops are structural recursion. Three functions run on fuel: `AllParents`, whose recursion overflows
-- Go's stack where inheritance is a cycle, and `New` of the graph model, which hands its fuel to it.
-- The fuel is the depth of the recursion: one more than the longest chain of parents is enough. The
-- third is `DeleteInstance`, which follows cascades, and with it `SaveOne`: two steps are enough where
-- no association has the name of an attribute, since the map of a row then holds no association. Where
-- a panic joins several texts the model keeps the first. Go leaves the order of a map's entries open:
-- a map is any list of entries.
--
-- Not modelled: the pointers from attributes to their entity and value object types, and what the
-- packages of others do (the plural of pluralize, viper, dataloader, the GraphQL library, the answers of
-- the database), which are arguments; the loading of applications (modules/app/app.go) and their scripts
-- (modules/app/script); authentication, notification, import and export, installation, publishing,
-- snapshots, the HTTP server, logs and storage, which mostly call libraries.
pub mod Prelude
pub mod Consts
pub mod Utils
pub mod Meta
pub mod Domain
pub mod Table
pub mod Graph
pub mod Model
pub mod Diff
pub mod Data
pub mod Db
pub mod Mysql
pub mod Orm
pub mod Service
pub mod Resolve
pub mod Schema
pub mod Config
mod Tests
