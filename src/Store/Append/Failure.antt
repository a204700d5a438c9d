-- ===== src/Store/Append/Failure.antt =====
-- What an append that fails leaves behind, whatever the tables hold.
use myfs.Base.{
  ℕ, ◌+◌, ◌-◌, ◌≡◌, refl, ◌∙◌, inl, inr, Bool, false, Bool-cases, Option, none, some, Option-cases,
  List, Bytes, ltb, ◌==◌, length, take, u32, head?,
}
use myfs.Sql.{Sql, BlockHead, start_transaction, last_block, add_size, concat_block}
use myfs.Sql.Tables.{Collation}
use myfs.Sql.Laws.{Documented}
use myfs.Sql.Steps.{tables_of, saved_after, saved_unchanged, start_tables, start_saved}
use myfs.Store.Block.{block_size, at_most}
use myfs.Store.Block.Saved.{SameSaved, if-SameSaved, insert_blocks-SameSaved}
use myfs.Store.Block.Transaction.{stop-false}
use myfs.Store.Append.{append_rest, append_last, append_body, append}

module _ (c : Collation) (db : Sql) (d : Documented c db) where
  append_rest-SameSaved :
      (g : ℕ) (bytes : Bytes) (written index : ℕ) (s : db.State)
      → SameSaved c db d s (append_rest db g bytes written index s).1
  unfolding append_rest
  append_rest-SameSaved g bytes written index s =
      insert_blocks-SameSaved c db d (length bytes - written) g bytes written
        (length bytes - written) index s

  append_last-SameSaved :
      (g : ℕ) (bytes : Bytes) (b : Option BlockHead) (s : db.State)
      → SameSaved c db d s (append_last db g bytes b s).1
  unfolding append_last
  append_last-SameSaved g bytes none s = append_rest-SameSaved g bytes 0 0 s
  append_last-SameSaved g bytes (some b) s =
      if-SameSaved c db d s (b.data_id == 0) _ _ (append_rest-SameSaved g bytes 0 b.index s) (
        if-SameSaved c db d s (ltb b.len block_size) _ _
          (if-SameSaved c db d s sent.0 _ _
            (append_rest-SameSaved g bytes n (u32 (b.index + 1)) sent.1 ∙ same) same)
          (append_rest-SameSaved g bytes 0 (u32 (b.index + 1)) s))
    where
      n : ℕ
      n = at_most (block_size - b.len) (length bytes)

      sent : Bool × db.State
      sent = db.query (concat_block b.data_id (take n bytes)) s

      same : SameSaved c db d s sent.1
      same = saved_after c db d (concat_block b.data_id (take n bytes)) s (λ now v. refl)

  append_body-SameSaved :
      (g : ℕ) (bytes : Bytes) (s : db.State) → SameSaved c db d s (append_body db g bytes s).1
  unfolding append_body
  append_body-SameSaved g bytes s = elim (Option-cases found.0) [
    | inl lost ↦ rw (append_body, lost) same
    | inr (rows, there) ↦
        rw (append_body, there)
          (if-SameSaved c db d s sized.0 _ _
            (append_last-SameSaved g bytes (head? rows) sized.1 ∙ sized_same) sized_same)
  ]
    where
      found : Option (List BlockHead) × db.State
      found = db.select (last_block g) s

      same : SameSaved c db d s found.1
      same = saved_unchanged c db d (last_block g) s

      sized : Bool × db.State
      sized = db.query (add_size g (length bytes)) found.1

      sized_same : SameSaved c db d s sized.1
      sized_same = saved_after c db d (add_size g (length bytes)) found.1 (λ now v. refl) ∙ same

  -- Where `append` reports a failure the tables are as they were, whatever they hold and whichever
  -- statement has failed.
  pub append-kept :
      (g : ℕ) (bytes : Bytes) (s : db.State)
      → (append db g bytes s).0 ≡ false
      → tables_of c db d (append db g bytes s).1 ≡ tables_of c db d s
  unfolding append
  append-kept g bytes s failed = elim (Bool-cases begun.0) [
    | inr not_begun ↦ rw (append, not_begun) (start_tables c db d s)
    | inl began ↦
        rw (append, began, (rw (append, began) at failed))
          (stop-false c db d r.1
            ∙ append_body-SameSaved g bytes begun.1
            ∙ start_saved c db d s began)
  ]
    where
      begun : Bool × db.State
      begun = db.query start_transaction s

      r : Bool × db.State
      r = append_body db g bytes begun.1
