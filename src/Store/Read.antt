-- ===== src/Store/Read.antt =====
-- `myfs_db_file_read` of src/myfs/myfs_db.c.
pub mod Content
use myfs.Base.{
  ℕ, ◌+◌, Option, none, some, List, [], ◌∷◌, ◌++◌, Bytes, ltb, ◌||◌, if◌then◌else◌, length, take,
  drop, u32, sub64,
}
use myfs.Sql.{Sql, DataRow, block_data, Outcome, done, fault}
use myfs.Store.Block.{block_index, block_offset, block_count}

-- The loop over the rows. `out` is what the buffer holds so far, so `count` is its length; `room`
-- is the size of the buffer. It is a fault to copy from beyond the row's data, or beyond the buffer.
unfoldable pub read_rows : ℕ → List DataRow → ℕ → ℕ → Bytes → Outcome Bytes
read_rows room [] page_offset size out = done out
read_rows room (row ∷ rows) page_offset size out =
    let data_len = u32 (if ltb size row.len then size else row.len) in
    let count = length out + data_len in
    let rest =
      read_rows room rows 0 (sub64 size count)
        (out ++ take data_len (drop page_offset row.bytes)) in
    if ltb (length row.bytes) (page_offset + data_len) || ltb room count then fault else rest

module _ (db : Sql) where
  -- `room` is what the buffer can hold, `size` the argument. `none` is the result -1; else the bytes
  -- that are put into the buffer.
  unfoldable pub read : ℕ → ℕ → ℕ → ℕ → db.State → Outcome (Option Bytes) × db.State
  unfolding read_rows block_index block_offset block_count
  read file_id room size offset s =
      let (res, s') =
        db.select (block_data file_id (u32 (block_index offset)) (u32 (block_count size))) s in
      elim res [
        | none ↦ (done none, s')
        | some rows ↦ (
          elim (read_rows room rows (block_offset offset) size []) [
            | done out ↦ done (some out)
            | other ↦ fault
          ],
          s',
        )
      ]
