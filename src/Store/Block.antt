-- ===== src/Store/Block.antt =====
-- The block arithmetic of src/myfs/myfs_db.c, the end of a transaction, and the loop that adds new
-- blocks, which `myfs_db_file_write` and `myfs_db_file_append` have in common.
pub mod Bounds
pub mod Insert
pub mod Saved
pub mod Transaction
use myfs.Base.{
  ℕ, zero, suc, ◌+◌, ◌-◌, ◌/◌, ◌%◌, Bool, true, false, Bytes, ltb, ◌==◌, if◌then◌else◌, take, drop,
  u32,
}
use myfs.Sql.{Sql, commit, rollback, insert_block}

-- MYFS_FILE_BLOCK_SIZE
abbrev pub block_size : ℕ
block_size = 4096

unfoldable pub block_index : ℕ → ℕ
block_index offset = offset / block_size

unfoldable pub block_offset : ℕ → ℕ
block_offset offset = offset % block_size

unfoldable pub block_count : ℕ → ℕ
block_count len = let count = len / block_size in if len % block_size == 0 then count else count + 1

-- The part of `left` that fits in the room that a block has.
abbrev pub at_most : ℕ → ℕ → ℕ
at_most room left = if ltb room left then room else left

module _ (db : Sql) where
  -- db_transaction_stop, whose result no caller reads
  unfoldable pub stop : Bool → db.State → db.State
  stop success s = (db.query (if success then commit else rollback) s).1

  -- while (left > 0): the rounds are at most the bytes left.
  unfoldable pub insert_blocks : ℕ → ℕ → Bytes → ℕ → ℕ → ℕ → db.State → Bool × db.State
  insert_blocks zero file_id bytes written left index s = (true, s)
  insert_blocks (suc rounds) file_id bytes written left index s =
      let write_size = at_most block_size left in
      let (success, s') =
        db.query (insert_block file_id index (take write_size (drop written bytes))) s in
      let rest =
        insert_blocks rounds file_id bytes (written + write_size) (left - write_size)
          (u32 (index + 1)) s' in
      if left == 0 then (true, s) else if success then rest else (false, s')
