-- ===== src/Orm.antt =====
-- orm/: the sessions that read and write instances.
pub mod Query
pub mod Migrate
pub mod Convert
pub mod Session
pub mod Read
pub mod Delete
pub mod Save
