-- ===== src/Text.antt =====
-- src/common/string.c, and the path functions of src/myfs/util.c.
pub mod Copy
pub mod Suffix
pub mod Path
