-- ===== src/Store/Block/Bounds.antt =====
-- The block arithmetic of src/myfs/myfs_db.c against its purpose.
use myfs.Base.{ℕ, ◌+◌, ◌*◌, ◌%◌, ◌≤◌, ◌<◌, ◌≡◌, ◌==◌, inl, inr, Bool-cases, arith}
use myfs.Store.Block.{block_index, block_offset, block_count}

-- An offset is that of the start of its block and the offset inside the block, which is less than a
-- block; and the blocks counted for a length hold it, where one block fewer would not.
pub block_lem :
    (offset len : ℕ)
    → (offset ≡ 4096 * block_index offset + block_offset offset)
      × (block_offset offset < 4096)
      × (len ≤ 4096 * block_count len)
      × (4096 * block_count len < len + 4096)
unfolding block_index block_offset block_count
block_lem offset len = elim (Bool-cases (len % 4096 == 0)) [
  | inl whole ↦ (omega arith, omega arith, ground arith, ground arith)
  | inr part ↦ (omega arith, omega arith, ground arith, ground arith)
]
