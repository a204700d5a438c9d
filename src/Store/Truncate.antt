-- ===== src/Store/Truncate.antt =====
-- `myfs_db_file_truncate` of src/myfs/myfs_db.c.
pub mod Failure
pub mod Returns
pub mod Blanks
pub mod Grow
pub mod Cut
pub mod Measured
pub mod Shrink
pub mod Content
use myfs.Base.{
  ℕ, zero, suc, ◌+◌, ◌-◌, Bool, true, false, Option, none, some, [], ◌∷◌, ltb, leb, ◌==◌,
  if◌then◌else◌, u32, head?,
}
use myfs.Sql.{
  Sql, BlockHead, start_transaction, last_block, last_block_size, file_size, set_size, pad_block,
  blank_block, insert_blank, delete_block, Outcome, done, running,
}
use myfs.Store.Block.{block_size, at_most, stop}

module _ (db : Sql) where
  -- Lines 730-747: the loop that adds blank blocks; the rounds are at most the bytes left.
  unfoldable pub insert_blanks : ℕ → ℕ → ℕ → ℕ → db.State → Bool × db.State
  insert_blanks zero file_id left index s = (true, s)
  insert_blanks (suc rounds) file_id left index s =
      let write_size = at_most block_size left in
      let (success, s') = db.query (insert_blank file_id index write_size) s in
      let rest = insert_blanks rounds file_id (left - write_size) (u32 (index + 1)) s' in
      if left == 0 then (true, s) else if success then rest else (false, s')

  -- The last block is filled up first.
  unfoldable pub grow_last : ℕ → ℕ → Option BlockHead → db.State → Bool × db.State
  unfolding insert_blanks
  grow_last file_id left none s = insert_blanks left file_id left 0 s
  grow_last file_id left (some b) s =
      let index = u32 (b.index + 1) in
      let write_size = at_most (block_size - b.len) left in
      let (success, s') = db.query (pad_block b.data_id write_size) s in
      if b.data_id == 0
      then insert_blanks left file_id left index s
      else if ltb b.len block_size
      then (if success
          then insert_blanks (left - write_size) file_id (left - write_size) index s'
          else (false, s'))
      else insert_blanks left file_id left index s

  unfoldable pub grow : ℕ → ℕ → db.State → Bool × db.State
  unfolding grow_last
  grow file_id left s =
      let (res, s1) = db.select (last_block file_id) s in
      elim res [ none ↦ (false, s1) | some rows ↦ grow_last file_id left (head? rows) s1 ]

  -- The loop that removes blocks from the end, on fuel.
  unfoldable pub shrink : ℕ → ℕ → ℕ → db.State → Outcome Bool × db.State
  shrink zero file_id left s = (if left == 0 then done true else running, s)
  shrink (suc fuel) file_id left s =
      let write_size = at_most block_size left in
      let (res, s1) = db.select (last_block_size file_id) s in
      elim (left == 0) [
        | true ↦ (done true, s)
        | false ↦ elim res [
          | none ↦ (done false, s1)
          | some [] ↦ (done false, s1)
          | some ((data_id, len) ∷ _) ↦ elim (data_id == 0) [
            | true ↦ (done false, s1)
            | false ↦ elim (leb len write_size) [
              | true ↦
                  let (success, s2) = db.query (delete_block data_id) s1 in
                  elim success [
                    | true ↦ shrink fuel file_id (left - len) s2
                    | false ↦ (done false, s2)
                  ]
              | false ↦
                  let (success, s2) = db.query (blank_block data_id (len - write_size)) s1 in
                  elim success [
                    | true ↦ shrink fuel file_id (left - write_size) s2
                    | false ↦ (done false, s2)
                  ]
            ]
          ]
        ]
      ]

  -- From the point where the size of the file is known.
  unfoldable pub resize : ℕ → ℕ → ℕ → ℕ → db.State → Outcome Bool × db.State
  unfolding grow shrink
  resize fuel file_id size current s =
      let (success, s1) = db.query (set_size file_id size) s in
      if size == current
      then (done true, s)
      else if success
      then (if ltb current size
          then (let (ok, s2) = grow file_id (size - current) s1 in (done ok, s2))
          else shrink fuel file_id (current - size) s1)
      else (done false, s1)

  unfoldable pub truncate_body : ℕ → ℕ → ℕ → db.State → Outcome Bool × db.State
  unfolding resize
  truncate_body fuel file_id size s =
      let (res, s1) = db.select (file_size file_id) s in
      elim res [
        | none ↦ (done false, s1)
        | some [] ↦ (done false, s1)
        | some (current ∷ _) ↦ resize fuel file_id size current s1
      ]

  -- done: The transaction is ended.
  unfoldable pub truncate_end : Outcome Bool → db.State → Outcome Bool × db.State
  unfolding stop
  truncate_end (done success) s = (done success, stop db success s)
  truncate_end other s = (other, s)

  unfoldable pub truncate : ℕ → ℕ → ℕ → db.State → Outcome Bool × db.State
  unfolding truncate_body truncate_end
  truncate fuel file_id size s =
      let (started, s0) = db.query start_transaction s in
      let (r, s1) = truncate_body fuel file_id size s0 in
      if started then truncate_end r s1 else (done false, s0)
