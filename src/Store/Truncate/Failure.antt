-- ===== src/Store/Truncate/Failure.antt =====
-- What a truncation that fails leaves behind.
use myfs.Base.{
  ℕ, zero, suc, ◌+◌, ◌-◌, ◌≡◌, refl, ◌∙◌, inl, inr, Bool, true, false, Bool-cases, Option, none,
  some, Option-cases, List, [], ◌∷◌, ltb, leb, ◌==◌, u32, head?,
}
use myfs.Sql.{
  Sql, BlockHead, start_transaction, last_block, last_block_size, file_size, set_size, pad_block,
  blank_block, insert_blank, delete_block, Outcome, done, fault, running,
}
use myfs.Sql.Tables.{Collation}
use myfs.Sql.Laws.{Documented}
use myfs.Sql.Steps.{tables_of, saved_of, saved_after, saved_unchanged, start_tables, start_saved}
use myfs.Store.Block.{block_size, at_most}
use myfs.Store.Block.Saved.{SameSaved, if-SameSaved}
use myfs.Store.Block.Transaction.{stop-false}
use myfs.Store.Truncate.{
  insert_blanks, grow_last, grow, shrink, resize, truncate_body, truncate_end, truncate,
}

module _ (c : Collation) (db : Sql) (d : Documented c db) where
  insert_blanks-SameSaved :
      (rounds g left index : ℕ) (s : db.State)
      → SameSaved c db d s (insert_blanks db rounds g left index s).1
  unfolding insert_blanks
  insert_blanks-SameSaved zero g left index s = refl
  insert_blanks-SameSaved (suc rounds) g left index s = if-SameSaved c db d s (left == 0) _ _ refl (
      if-SameSaved c db d s sent.0 _ _
        (insert_blanks-SameSaved rounds g (left - at_most block_size left) (u32 (index + 1)) sent.1
          ∙ same)
        same)
    where
      sent : Bool × db.State
      sent = db.query (insert_blank g index (at_most block_size left)) s

      same : SameSaved c db d s sent.1
      same = saved_after c db d (insert_blank g index (at_most block_size left)) s (λ now v. refl)

  grow_last-SameSaved :
      (g left : ℕ) (b : Option BlockHead) (s : db.State)
      → SameSaved c db d s (grow_last db g left b s).1
  unfolding grow_last
  grow_last-SameSaved g left none s = insert_blanks-SameSaved left g left 0 s
  grow_last-SameSaved g left (some b) s = if-SameSaved c db d s (b.data_id == 0) _ _ on (
      if-SameSaved c db d s (ltb b.len block_size) _ _
        (if-SameSaved c db d s sent.0 _ _
          (insert_blanks-SameSaved (left - n) g (left - n) (u32 (b.index + 1)) sent.1 ∙ same) same)
        on)
    where
      n : ℕ
      n = at_most (block_size - b.len) left

      sent : Bool × db.State
      sent = db.query (pad_block b.data_id n) s

      same : SameSaved c db d s sent.1
      same = saved_after c db d (pad_block b.data_id n) s (λ now v. refl)

      on : SameSaved c db d s (insert_blanks db left g left (u32 (b.index + 1)) s).1
      on = insert_blanks-SameSaved left g left (u32 (b.index + 1)) s

  grow-SameSaved : (g left : ℕ) (s : db.State) → SameSaved c db d s (grow db g left s).1
  unfolding grow
  grow-SameSaved g left s = elim (Option-cases found.0) [
    | inl lost ↦ rw (lost, grow) same
    | inr (rows, there) ↦ rw (there, grow) (grow_last-SameSaved g left (head? rows) found.1 ∙ same)
  ]
    where
      found : Option (List BlockHead) × db.State
      found = db.select (last_block g) s

      same : SameSaved c db d s found.1
      same = saved_unchanged c db d (last_block g) s

  shrink-SameSaved :
      (fuel g left : ℕ) (s : db.State) → SameSaved c db d s (shrink db fuel g left s).1
  unfolding shrink
  shrink-SameSaved zero g left s = refl
  shrink-SameSaved (suc fuel) g left s = elim (Bool-cases (left == 0)) [
    | inl all ↦ rw (shrink, all) refl
    | inr more ↦ elim (Option-cases found.0) [
      | inl lost ↦ rw (shrink, more, lost) same
      | inr ([], there) ↦ rw (shrink, more, there) same
      | inr ((k, len) ∷ rows, there) ↦ elim (Bool-cases (k == 0)) [
        | inl no_row ↦ rw (shrink, more, there, no_row) same
        | inr row ↦ elim (Bool-cases (leb len n)) [
          | inl whole ↦ elim (Bool-cases (db.query (delete_block k) found.1).0) [
            | inl ok ↦
                rw (shrink, more, there, row, whole, ok)
                  (shrink-SameSaved fuel g (left - len) (db.query (delete_block k) found.1).1
                    ∙ deleted k)
            | inr failed ↦ rw (shrink, more, there, row, whole, failed) (deleted k)
          ]
          | inr part ↦ elim (Bool-cases (db.query (blank_block k (len - n)) found.1).0) [
            | inl ok ↦
                rw (shrink, more, there, row, part, ok)
                  (shrink-SameSaved fuel g (left - n) (db.query (blank_block k (len - n)) found.1).1
                    ∙ blanked k len)
            | inr failed ↦ rw (shrink, more, there, row, part, failed) (blanked k len)
          ]
        ]
      ]
    ]
  ]
    where
      n : ℕ
      n = at_most block_size left

      found : Option (List (ℕ × ℕ)) × db.State
      found = db.select (last_block_size g) s

      same : SameSaved c db d s found.1
      same = saved_unchanged c db d (last_block_size g) s

      deleted : (k : ℕ) → SameSaved c db d s (db.query (delete_block k) found.1).1
      deleted k = saved_after c db d (delete_block k) found.1 (λ now v. refl) ∙ same

      blanked : (k len : ℕ) → SameSaved c db d s (db.query (blank_block k (len - n)) found.1).1
      blanked k len = saved_after c db d (blank_block k (len - n)) found.1 (λ now v. refl) ∙ same

  resize-SameSaved :
      (fuel g size current : ℕ) (s : db.State)
      → SameSaved c db d s (resize db fuel g size current s).1
  unfolding resize
  resize-SameSaved fuel g size current s = if-SameSaved c db d s (size == current) _ _ refl (
      if-SameSaved c db d s sent.0 _ _
        (if-SameSaved c db d s (ltb current size) _ _
          (grow-SameSaved g (size - current) sent.1 ∙ same)
          (shrink-SameSaved fuel g (current - size) sent.1 ∙ same))
        same)
    where
      sent : Bool × db.State
      sent = db.query (set_size g size) s

      same : SameSaved c db d s sent.1
      same = saved_after c db d (set_size g size) s (λ now v. refl)

  truncate_body-SameSaved :
      (fuel g size : ℕ) (s : db.State) → SameSaved c db d s (truncate_body db fuel g size s).1
  unfolding truncate_body
  truncate_body-SameSaved fuel g size s = elim (Option-cases found.0) [
    | inl lost ↦ rw (lost, truncate_body) same
    | inr ([], there) ↦ rw (there, truncate_body) same
    | inr (current ∷ rows, there) ↦
        rw (there, truncate_body) (resize-SameSaved fuel g size current found.1 ∙ same)
  ]
    where
      found : Option (List ℕ) × db.State
      found = db.select (file_size g) s

      same : SameSaved c db d s found.1
      same = saved_unchanged c db d (file_size g) s

  truncate_end-kept :
      (r : Outcome Bool) (s : db.State)
      → (truncate_end db r s).0 ≡ done false
      → tables_of c db d (truncate_end db r s).1 ≡ saved_of c db d s
  unfolding truncate_end
  truncate_end-kept (done true) s failed = cc
  truncate_end-kept (done false) s failed = stop-false c db d s
  truncate_end-kept fault s failed = cc
  truncate_end-kept running s failed = cc

  -- Where `truncate` reports a failure the tables are as they were, whichever statement has failed.
  pub truncate-kept :
      (fuel g size : ℕ) (s : db.State)
      → (truncate db fuel g size s).0 ≡ done false
      → tables_of c db d (truncate db fuel g size s).1 ≡ tables_of c db d s
  unfolding truncate
  truncate-kept fuel g size s failed = elim (Bool-cases begun.0) [
    | inr not_begun ↦ rw (truncate, not_begun) (start_tables c db d s)
    | inl began ↦
        rw (truncate, began)
          (truncate_end-kept r.0 r.1 (rw (truncate, began) at failed)
            ∙ truncate_body-SameSaved fuel g size begun.1
            ∙ start_saved c db d s began)
  ]
    where
      begun : Bool × db.State
      begun = db.query start_transaction s

      r : Outcome Bool × db.State
      r = truncate_body db fuel g size begun.1
