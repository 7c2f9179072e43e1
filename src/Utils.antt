-- ===== src/Utils.antt =====
-- utils/: the helpers on identifiers and names.
pub mod Id
pub mod Names
