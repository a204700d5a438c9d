-- ===== src/Store.antt =====
-- src/myfs/myfs_db.c: the files and their data blocks in the database. The children model its
-- functions, each over a connection `Sql`; the modules below them prove what they do.
pub mod Roundtrip
pub mod Block
pub mod Kind
pub mod Content
pub mod Append
pub mod Write
pub mod Read
pub mod Truncate
pub mod Meta
pub mod Query
