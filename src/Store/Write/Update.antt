-- ===== src/Store/Write/Update.antt =====
-- The loop of `myfs_db_file_write` over the blocks that are there.

use myfs.Base.{
  ℕ, ◌+◌, ◌-◌, ◌≤◌, ◌<◌, ◌≡◌, refl, ◌⊎◌, inl, inr, true, Bool-cases, leb, ◌==◌, List, [], ◌∷◌, ◌++◌,
  Bytes, length, take, drop, map, u32, length-append, arith,
}
use myfs.Sql.{Sql}
use myfs.Sql.Tables.{Block, Collation, head_of}
use myfs.Sql.Laws.{Documented}
use myfs.Sql.Steps.{tables_of}
use myfs.Store.Content.{content_of, Packed, WellFormed}
use myfs.Store.Content.Middle.{Packed-full}
use myfs.Store.Write.{update_blocks}
use myfs.Store.Write.Overwrite.{overwrite}
use myfs.Store.Write.Left.{Updated, Follows-nil}
use myfs.Store.Write.Round.{update_last, update_more}

module _ (c : Collation) (db : Sql) (d : Documented c db) (g : ℕ) (bytes : Bytes) where
  -- A block after which bytes are left is full.
  full_of :
      (pre : List Block) (b : Block) (r post : List Block) (m : ℕ)
      → Packed 0 (pre ++ b ∷ (r ++ post))
      → length b.bytes < m
      → m ≤ length (content_of (b ∷ r))
      → length b.bytes ≡ 4096
  full_of pre b [] post m h less le = absurd (omega (arith, length-append b.bytes []))
  full_of pre b (x ∷ r) post m h less le = Packed-full 0 pre b x (r ++ post) h

  -- Where the bytes that are left lie inside the blocks that the loop is given, and it reports no
  -- failure, they are in place and none is left.
  pub update_blocks_lem :
      (chosen pre post : List Block) (written left page_offset index : ℕ) (s : db.State)
      → WellFormed (tables_of c db d s)
      → (tables_of c db d s).blocks g ≡ pre ++ (chosen ++ post)
      → (page_offset ≡ 0) ⊎ (written ≡ 0)
      → page_offset ≤ 4096
      → written + left ≤ length bytes
      → page_offset + left ≤ length (content_of chosen)
      → let r = update_blocks db (map head_of chosen) bytes written left page_offset index s in
        r.0.success ≡ true
        → Updated c db d g bytes s r.0 r.1 (
            content_of pre
            ++ (overwrite page_offset (take left (drop written bytes)) (content_of chosen)
                ++ content_of post))
  unfolding update_blocks
  update_blocks_lem [] pre post written left o index s w e z le enough inside success =
      let all : left ≡ 0 = omega arith in
      rw all (Follows-nil c db d g bytes s w _ o pre [] post e refl)
  update_blocks_lem (b ∷ r) pre post written left o index s w e z le enough inside success =
      elim (Bool-cases (left == 0)) [
        | inl all ↦
            let zero_left : left ≡ 0 = ground arith in
            rw zero_left (Follows-nil c db d g bytes s w _ o pre (b ∷ r) post e refl)
        | inr more ↦ elim (Bool-cases (leb (o + left) (length b.bytes))) [
          | inl last_one ↦
              update_last c db d g bytes b r pre post written left o index s w e z le enough
                (ground arith) (ground arith) success
          | inr further ↦
              let less : length b.bytes < o + left = ground arith in
              let full : length b.bytes ≡ 4096 =
                full_of pre b r post (o + left) (rw e at (w.packed g)) less inside in
              update_more c db d g bytes b r pre post written left o index s w e z le enough
                (ground arith) less full
                (λ s1 pre1 w1 e1.
                  update_blocks_lem r pre1 post (written + (4096 - o)) (left - (4096 - o)) 0
                    (u32 (b.index + 1)) s1 w1 e1 (inl refl) (omega arith) (omega arith)
                    (omega (arith, length-append b.bytes (content_of r))))
                success
        ]
      ]
