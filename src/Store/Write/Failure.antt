-- ===== src/Store/Write/Failure.antt =====
-- What a write that fails leaves behind.
use myfs.Base.{
  ℕ, ◌+◌, ◌-◌, ◌≡◌, refl, ◌∙◌, inl, inr, Bool, false, Bool-cases, Option, Option-cases, List, [],
  ◌∷◌, Bytes, ◌==◌, if◌then◌else◌, length, take, drop, u32,
}
use myfs.Sql.{Sql, BlockHead, start_transaction, blocks_from, add_size, write_block}
use myfs.Sql.Tables.{Collation}
use myfs.Sql.Laws.{Documented}
use myfs.Sql.Steps.{tables_of, saved_after, saved_unchanged, start_tables, start_saved}
use myfs.Store.Block.{block_size, block_index, block_offset, block_count, at_most}
use myfs.Store.Block.Saved.{SameSaved, if-SameSaved, insert_blocks-SameSaved}
use myfs.Store.Block.Transaction.{stop-false}
use myfs.Store.Write.{Progress, update_blocks, write_rest, write_body, write}

module _ (c : Collation) (db : Sql) (d : Documented c db) where
  update_blocks-SameSaved :
      (rows : List BlockHead) (bytes : Bytes) (written left page_offset index : ℕ) (s : db.State)
      → SameSaved c db d s (update_blocks db rows bytes written left page_offset index s).1
  unfolding update_blocks
  update_blocks-SameSaved [] bytes written left page_offset index s = refl
  update_blocks-SameSaved (b ∷ rows) bytes written left page_offset index s =
      if-SameSaved c db d s (left == 0) _ _ refl (
        if-SameSaved c db d s sent.0 _ _
          (update_blocks-SameSaved rows bytes (written + n) (left - n) 0 (u32 (b.index + 1)) sent.1
            ∙ same)
          same)
    where
      n : ℕ
      n = if written == 0 then at_most (block_size - page_offset) left else at_most block_size left

      sent : Bool × db.State
      sent = db.query (write_block b.data_id (page_offset + 1) n (take n (drop written bytes))) s

      same : SameSaved c db d s sent.1
      same =
          saved_after c db d
            (write_block b.data_id (page_offset + 1) n (take n (drop written bytes))) s
            (λ now v. refl)

  write_rest-SameSaved :
      (g : ℕ) (bytes : Bytes) (p : Progress) (s : db.State)
      → SameSaved c db d s (write_rest db g bytes p s).1
  unfolding write_rest
  write_rest-SameSaved g bytes p s =
      if-SameSaved c db d s p.success _ _
        (if-SameSaved c db d s (p.left == 0) _ _ refl (
          if-SameSaved c db d s sent.0 _ _
            (insert_blocks-SameSaved c db d p.left g bytes p.written p.left p.index sent.1 ∙ same)
            same))
        refl
    where
      sent : Bool × db.State
      sent = db.query (add_size g p.left) s

      same : SameSaved c db d s sent.1
      same = saved_after c db d (add_size g p.left) s (λ now v. refl)

  write_body-SameSaved :
      (g : ℕ) (bytes : Bytes) (offset : ℕ) (s : db.State)
      → SameSaved c db d s (write_body db g bytes offset s).1
  unfolding write_body
  write_body-SameSaved g bytes offset s = elim (Option-cases found.0) [
    | inl lost ↦ rw (write_body, lost) same
    | inr (rows, there) ↦
        rw (write_body, there)
          (write_rest-SameSaved g bytes (updated rows).0 (updated rows).1
            ∙ update_blocks-SameSaved rows bytes 0 (length bytes) (block_offset offset)
                (u32 (block_index offset)) found.1
            ∙ same)
  ]
    where
      found : Option (List BlockHead) × db.State
      found =
          db.select (blocks_from g (u32 (block_index offset)) (u32 (block_count (length bytes)))) s

      same : SameSaved c db d s found.1
      same =
          saved_unchanged c db d
            (blocks_from g (u32 (block_index offset)) (u32 (block_count (length bytes)))) s

      updated : List BlockHead → Progress × db.State
      updated rows =
          update_blocks db rows bytes 0 (length bytes) (block_offset offset)
            (u32 (block_index offset)) found.1

  -- Where `write` reports a failure the tables are as they were, whichever statement has failed.
  pub write-kept :
      (g : ℕ) (bytes : Bytes) (offset : ℕ) (s : db.State)
      → (write db g bytes offset s).0 ≡ false
      → tables_of c db d (write db g bytes offset s).1 ≡ tables_of c db d s
  unfolding write
  write-kept g bytes offset s failed = elim (Bool-cases begun.0) [
    | inr not_begun ↦ rw (write, not_begun) (start_tables c db d s)
    | inl began ↦
        rw (write, began, (rw (write, began) at failed))
          (stop-false c db d r.1
            ∙ write_body-SameSaved g bytes offset begun.1
            ∙ start_saved c db d s began)
  ]
    where
      begun : Bool × db.State
      begun = db.query start_transaction s

      r : Bool × db.State
      r = write_body db g bytes offset begun.1
