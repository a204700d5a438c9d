-- ===== src/Store/Write.antt =====
-- `myfs_db_file_write` of src/myfs/myfs_db.c.
pub mod Failure
pub mod Overwrite
pub mod Parts
pub mod Step
pub mod Left
pub mod Round
pub mod Update
pub mod Content
use myfs.Base.{
  ℕ, ◌+◌, ◌-◌, Bool, true, false, none, some, List, [], ◌∷◌, Bytes, ◌==◌, if◌then◌else◌, length,
  take, drop, u32,
}
use myfs.Sql.{Sql, BlockHead, start_transaction, blocks_from, add_size, write_block}
use myfs.Store.Block.{
  block_size, block_index, block_offset, block_count, at_most, stop, insert_blocks,
}

-- The variables of the loop over the blocks that are overwritten, when it ends.
pub record Progress : Type 0 where
  pub success : Bool
  pub written : ℕ
  pub left : ℕ
  pub index : ℕ

module _ (db : Sql) where
  -- while (left > 0 && (row = mysql_fetch_row(res)) != NULL)
  unfoldable pub update_blocks :
      List BlockHead → Bytes → ℕ → ℕ → ℕ → ℕ → db.State → Progress × db.State
  update_blocks [] bytes written left page_offset index s =
      (record { success = true; written = written; left = left; index = index }, s)
  update_blocks (b ∷ rows) bytes written left page_offset index s =
      let write_size =
        (if written == 0
          then at_most (block_size - page_offset) left
          else at_most block_size left) in
      let (success, s') =
        db.query
          (write_block b.data_id (page_offset + 1) write_size
            (take write_size (drop written bytes)))
          s in
      let rest =
        update_blocks rows bytes (written + write_size) (left - write_size) 0 (u32 (b.index + 1))
          s' in
      if left == 0
      then (record { success = true; written = written; left = left; index = index }, s)
      else if success
      then rest
      else (record { success = false; written = written; left = left; index = b.index }, s')

  -- New blocks for what is left; the file grows by as much.
  unfoldable pub write_rest : ℕ → Bytes → Progress → db.State → Bool × db.State
  write_rest file_id bytes p s =
      let (success, s') = db.query (add_size file_id p.left) s in
      if p.success
      then (if p.left == 0
          then (true, s)
          else if success
          then insert_blocks db p.left file_id bytes p.written p.left p.index s'
          else (false, s'))
      else (false, s)

  unfoldable pub write_body : ℕ → Bytes → ℕ → db.State → Bool × db.State
  unfolding update_blocks write_rest block_index block_offset block_count
  write_body file_id bytes offset s =
      let index = u32 (block_index offset) in
      let limit = u32 (block_count (length bytes)) in
      let (res, s1) = db.select (blocks_from file_id index limit) s in
      elim res [
        | none ↦ (false, s1)
        | some rows ↦
            let (p, s2) =
              update_blocks rows bytes 0 (length bytes) (block_offset offset) index s1 in
            write_rest file_id bytes p s2
      ]

  unfoldable pub write : ℕ → Bytes → ℕ → db.State → Bool × db.State
  unfolding write_body stop
  write file_id bytes offset s =
      let (started, s0) = db.query start_transaction s in
      let (success, s') = write_body file_id bytes offset s0 in
      if started then (success, stop db success s') else (false, s0)
