-- ===== src/Service.antt =====
-- service/: what the resolvers call, with the access that the user has.
pub mod Query
pub mod Read
pub mod Change
