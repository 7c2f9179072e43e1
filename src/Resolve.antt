-- ===== src/Resolve.antt =====
-- modules/app/resolve/: the functions that answer the fields of the schema, from the arguments of a
-- call. They recover a panic only to raise it again.
pub mod Mutation
pub mod Query
pub mod Loader
use entix.Prelude.{ℕ, List, Option, Fields}
use entix.Graph.{Entity}

-- model/observer: what the observers are told, on a goroutine of its own.
pub data Event : Type 0 where
  object_posted object_deleted : Fields → Entity → Event
  objects_posted objects_deleted : List Fields → Entity → Event

-- What a resolver answers, and what it has the observers told.
abbrev pub Answer : Type 0 → Type 0
Answer A = record { reply : A; told : Option Event }

-- The keys `returning` and `affectedRows`.
abbrev pub Affected : Type 0
Affected = record { returning : List Fields; affected_rows : ℕ }
