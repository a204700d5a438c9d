-- ===== src/Store/Append.antt =====
-- `myfs_db_file_append` of src/myfs/myfs_db.c.
pub mod Last
pub mod Content
pub mod Failure
pub mod Success
use myfs.Base.{
  ℕ, ◌+◌, ◌-◌, Bool, true, false, Option, none, some, List, [], ◌∷◌, Bytes, ltb, ◌==◌,
  if◌then◌else◌, length, take, u32, head?,
}
use myfs.Sql.{Sql, BlockHead, start_transaction, last_block, add_size, concat_block}
use myfs.Store.Block.{block_size, at_most, stop, insert_blocks}

module _ (db : Sql) where
  -- The end of the function: add blocks for what is left, from the block `index` on.
  unfoldable pub append_rest : ℕ → Bytes → ℕ → ℕ → db.State → Bool × db.State
  append_rest file_id bytes written index s =
      let left = length bytes - written in insert_blocks db left file_id bytes written left index s

  -- The last block takes what it has room for.
  unfoldable pub append_last : ℕ → Bytes → Option BlockHead → db.State → Bool × db.State
  unfolding append_rest
  append_last file_id bytes none s = append_rest file_id bytes 0 0 s
  append_last file_id bytes (some b) s =
      let write_size = at_most (block_size - b.len) (length bytes) in
      let (success, s') = db.query (concat_block b.data_id (take write_size bytes)) s in
      if b.data_id == 0
      then append_rest file_id bytes 0 b.index s
      else if ltb b.len block_size
      then (if success
          then append_rest file_id bytes write_size (u32 (b.index + 1)) s'
          else (false, s'))
      else append_rest file_id bytes 0 (u32 (b.index + 1)) s

  unfoldable pub append_body : ℕ → Bytes → db.State → Bool × db.State
  unfolding append_last
  append_body file_id bytes s =
      let (res, s1) = db.select (last_block file_id) s in
      elim res [
        | none ↦ (false, s1)
        | some rows ↦
            let (success, s2) = db.query (add_size file_id (length bytes)) s1 in
            if success then append_last file_id bytes (head? rows) s2 else (false, s2)
      ]

  unfoldable pub append : ℕ → Bytes → db.State → Bool × db.State
  unfolding append_body stop
  append file_id bytes s =
      let (started, s0) = db.query start_transaction s in
      let (success, s') = append_body file_id bytes s0 in
      if started then (success, stop db success s') else (false, s0)
