-- ===== src/Store/Write/Left.antt =====
-- What a round of the loop of `myfs_db_file_write` over the blocks that are there does, and what
-- it leaves.

use myfs.Base.{
  ℕ, ◌+◌, ◌-◌, ◌≡◌, refl, ap, sym, ◌∙◌, ◌⊎◌, inl, inr, Bool, true, false, Bool-cases, ◌==◌,
  if◌then◌else◌, List, [], ◌∷◌, ◌++◌, Bytes, take, drop, u32, arith,
}
use myfs.Sql.{Sql, BlockHead, write_block}
use myfs.Sql.Tables.{Block, Collation, head_of}
use myfs.Sql.Laws.{Documented}
use myfs.Sql.Steps.{tables_of}
use myfs.Store.Block.{block_size, at_most}
use myfs.Store.Content.{content_of, WellFormed, Changed, Changed-trans, Changed-refl}
use myfs.Store.Content.Packed.{content_of-append}
use myfs.Store.Write.{Progress, update_blocks}
use myfs.Store.Write.Overwrite.{overwrite, overwrite-nil}

module _ (c : Collation) (db : Sql) (d : Documented c db) (g : ℕ) (bytes : Bytes) where
  -- From `s` to `s'` nothing is left, and only the blocks of `g` have changed, to hold `x`.
  pub record Updated (s : db.State) (p : Progress) (s' : db.State) (x : Bytes) : Type 0 where
    pub none_left : p.left ≡ 0
    pub changed : Changed (tables_of c db d s) (tables_of c db d s') g x
    pub files : (tables_of c db d s').files ≡ (tables_of c db d s).files

  pub Updated-trans :
      (s s1 s2 : db.State) (p : Progress) (x y : Bytes)
      → Changed (tables_of c db d s) (tables_of c db d s1) g x
      → (tables_of c db d s1).files ≡ (tables_of c db d s).files
      → Updated s1 p s2 y
      → Updated s p s2 y
  Updated-trans s s1 s2 p x y h f u = record {
    none_left = u.none_left;
    changed = Changed-trans h u.changed;
    files = u.files ∙ f;
  }

  pub update_blocks_zero :
      (rows : List BlockHead) (written page_offset index : ℕ) (s : db.State)
      → update_blocks db rows bytes written 0 page_offset index s
        ≡ (record { success = true; written = written; left = 0; index = index }, s)
  unfolding update_blocks
  update_blocks_zero [] written page_offset index s = refl
  update_blocks_zero (b ∷ rows) written page_offset index s = refl

  pub size_of :
      (written left page_offset : ℕ)
      → (page_offset ≡ 0) ⊎ (written ≡ 0)
      → (if written == 0 then at_most (block_size - page_offset) left else at_most block_size left)
        ≡ at_most (block_size - page_offset) left
  size_of written left page_offset (inl z) = elim (Bool-cases (written == 0)) [
    | inl first ↦ rw first refl
    | inr later ↦ let e : block_size - page_offset ≡ block_size = omega arith in rw (later, e) refl
  ]
  size_of written left page_offset (inr z) =
      let first : (written == 0) ≡ true = ground arith in rw first refl

  -- A round of the loop, by what the statement reports.
  module _ (b : Block) (rows : List BlockHead) (written left page_offset index : ℕ) (s : db.State)
      (some_left : (left == 0) ≡ false) (n : ℕ)
      (size : (if written == 0
          then at_most (block_size - page_offset) left
          else at_most block_size left)
        ≡ n) where
    abbrev pub write : Bool × db.State
    write = db.query (write_block b.data_id (page_offset + 1) n (take n (drop written bytes))) s

    pub round_true :
        write.0 ≡ true
        → update_blocks db (head_of b ∷ rows) bytes written left page_offset index s
          ≡ update_blocks db rows bytes (written + n) (left - n) 0 (u32 (b.index + 1)) write.1
    unfolding update_blocks
    round_true ok = rw (update_blocks, some_left, size, ok) refl

    pub round_false :
        write.0 ≡ false
        → update_blocks db (head_of b ∷ rows) bytes written left page_offset index s
          ≡ (record { success = false; written = written; left = left; index = b.index }, write.1)
    unfolding update_blocks
    round_false failed = rw (update_blocks, some_left, size, failed) refl

  -- The bytes that are left are in place.
  abbrev pub Follows : db.State → Bytes → Progress × db.State → Type 0
  Follows s x r = r.0.success ≡ true → Updated s r.0 r.1 x

  pub Follows-nil :
      (s : db.State) (w : WellFormed (tables_of c db d s)) (p : Progress) (o : ℕ)
      (pre chosen post : List Block)
      → (tables_of c db d s).blocks g ≡ pre ++ (chosen ++ post)
      → p.left ≡ 0
      → Updated s p s (content_of pre ++ (overwrite o [] (content_of chosen) ++ content_of post))
  Follows-nil s w p o pre chosen post e z = record {
    none_left = z;
    changed = Changed-refl g _ w (
        ap content_of e
        ∙ content_of-append pre (chosen ++ post)
        ∙ ap (λ x. content_of pre ++ x)
            (content_of-append chosen post
              ∙ ap (λ x. x ++ content_of post) (sym (overwrite-nil o (content_of chosen)))));
    files = refl;
  }
