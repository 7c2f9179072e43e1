-- ===== src/Mysql.antt =====
-- db/dialect/mysql/: the SQL texts of the MySQL dialect and the parameters that go with them.
pub mod Where
pub mod Select
pub mod ColumnType
pub mod Migration
pub mod Change
