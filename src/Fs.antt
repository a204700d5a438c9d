-- ===== src/Fs.antt =====
-- src/myfs/myfs.c: the FUSE callbacks over the files in the database.
pub mod Context
pub mod Walk
pub mod Handle
pub mod Status
pub mod Change
pub mod Data
pub mod Rename
pub mod Link
