-- ===== src/Store/Write/Round.antt =====
-- A round of the loop of `myfs_db_file_write` over the blocks that are there: all that is left goes
-- into its block, or the block is filled.
use mathlib.Core.Path.{subst}
use myfs.Base.{
  ℕ, ◌+◌, ◌-◌, ◌≤◌, ◌<◌, ◌≡◌, refl, ap, sym, ◌∙◌, ◌⊎◌, inl, inr, true, false, Bool-cases, ◌==◌,
  if◌then◌else◌, List, [], ◌∷◌, ◌++◌, Bytes, length, take, drop, map, u32, length-take, length-drop,
  append_assoc, drop-drop, take-split, arith,
}
use myfs.Sql.{Sql, BlockHead, write_block}
use myfs.Sql.Tables.{Block, Collation, head_of, splice}
use myfs.Sql.Laws.{Documented}
use myfs.Sql.Steps.{tables_of}
use myfs.Store.Block.{block_size, at_most}
use myfs.Store.Content.{content_of, WellFormed, Changed}
use myfs.Store.Content.Packed.{content_of-append}
use myfs.Store.Content.Middle.{Packed-fits}
use myfs.Store.Write.{Progress, update_blocks}
use myfs.Store.Write.Overwrite.{overwrite, overwrite-append_le, overwrite-append_split}
use myfs.Store.Write.Step.{sent-Changed, sent_files, sent_blocks, sent_content}
use myfs.Store.Write.Left.{
  Updated, Updated-trans, update_blocks_zero, size_of, write, round_true, round_false, Follows,
}

module _ (c : Collation) (db : Sql) (d : Documented c db) (g : ℕ) (bytes : Bytes) where
  module _ (b : Block) (r pre post : List Block) (written left o index : ℕ) (s : db.State)
      (w : WellFormed (tables_of c db d s))
      (e : (tables_of c db d s).blocks g ≡ pre ++ (b ∷ r ++ post)) (z : (o ≡ 0) ⊎ (written ≡ 0))
      (le : o ≤ 4096) (enough : written + left ≤ length bytes) (some_left : 0 < left) where
    abbrev goal : Bytes
    goal =
        content_of pre
        ++ (overwrite o (take left (drop written bytes)) (content_of (b ∷ r)) ++ content_of post)

    abbrev rows : List BlockHead
    rows = map head_of r

    fits : length b.bytes ≤ 4096
    fits = Packed-fits 0 pre b (r ++ post) (rw e at (w.packed g))

    some : (left == 0) ≡ false
    some = ground arith

    -- All that is left goes into this block.
    pub update_last :
        o + left ≤ length b.bytes
        → Follows c db d g bytes s goal
            (update_blocks db (head_of b ∷ rows) bytes written left o index s)
    update_last inside =
        elim (Bool-cases (write c db d g bytes b rows written left o index s some left size).0) [
          | inr failed ↦
              subst (Follows c db d g bytes s goal)
                (sym
                  (round_false c db d g bytes b rows written left o index s some left size failed))
                (λ h. cc)
          | inl ok ↦
              subst (Follows c db d g bytes s goal)
                (sym (
                  round_true c db d g bytes b rows written left o index s some left size ok
                  ∙ nothing_more))
                (λ h. record {
                  none_left = refl;
                  changed =
                      subst (λ x. Changed (tables_of c db d s) (tables_of c db d sent1) g x)
                        in_place
                        (sent-Changed c db d g bytes written left o some_left enough s w pre b
                          (r ++ post) e left (omega arith) inside ok);
                  files =
                      sent_files c db d g bytes written left o some_left enough s w pre b
                        (r ++ post) e left (omega arith) inside ok;
                })
        ]
      where
        new1 : Bytes
        new1 = take left (drop written bytes)

        sent1 : db.State
        sent1 = (db.query (write_block b.data_id (o + 1) left new1) s).1

        nothing_more :
            update_blocks db rows bytes (written + left) (left - left) 0 (u32 (b.index + 1)) sent1
            ≡ (
              record {
                success = true;
                written = written + left;
                left = 0;
                index = u32 (b.index + 1);
              },
              sent1,
            )
        nothing_more =
            ap (λ k. update_blocks db rows bytes (written + left) k 0 (u32 (b.index + 1)) sent1)
              (omega arith)
            ∙ update_blocks_zero c db d g bytes rows (written + left) 0 (u32 (b.index + 1)) sent1

        in_place : content_of pre ++ (overwrite o new1 b.bytes ++ content_of (r ++ post)) ≡ goal
        in_place =
            ap (λ x. content_of pre ++ x)
              (ap (λ x. overwrite o new1 b.bytes ++ x) (content_of-append r post)
                ∙ sym (append_assoc (overwrite o new1 b.bytes) (content_of r) (content_of post))
                ∙ ap (λ x. x ++ content_of post)
                    (sym (
                      overwrite-append_le o new1 b.bytes (content_of r) (
                        omega (
                          arith,
                          length-take left (drop written bytes),
                          length-drop written bytes,
                        )))))

        size :
            (if written == 0 then at_most (block_size - o) left else at_most block_size left) ≡ left
        size = size_of c db d g bytes written left o z ∙ ground (arith, fits)

    -- This block is filled, and the loop goes on.
    pub update_more :
        length b.bytes < o + left
        → length b.bytes ≡ 4096
        → ((s1 : db.State) (pre1 : List Block)
            → WellFormed (tables_of c db d s1)
            → (tables_of c db d s1).blocks g ≡ pre1 ++ (r ++ post)
            → Follows c db d g bytes s1
                (content_of pre1
                  ++ (overwrite 0
                        (take (left - (4096 - o)) (drop (written + (4096 - o)) bytes))
                        (content_of r)
                      ++ content_of post))
                (update_blocks db rows bytes
                  (written + (4096 - o))
                  (left - (4096 - o))
                  0
                  (u32 (b.index + 1))
                  s1))
        → Follows c db d g bytes s goal
            (update_blocks db (head_of b ∷ rows) bytes written left o index s)
    update_more further full rest =
        elim (Bool-cases
          (write c db d g bytes b rows written left o index s some (4096 - o) size).0) [
            | inr failed ↦
                subst (Follows c db d g bytes s goal)
                  (sym (
                    round_false c db d g bytes b rows written left o index s some (4096 - o) size
                      failed))
                  (λ h. cc)
            | inl ok ↦
                subst (Follows c db d g bytes s goal)
                  (sym (
                    round_true c db d g bytes b rows written left o index s some (4096 - o) size
                      ok))
                  (λ success.
                    let h =
                      sent-Changed c db d g bytes written left o some_left enough s w pre b
                        (r ++ post) e (4096 - o) (omega arith) (omega arith) ok in
                    Updated-trans c db d g bytes s sent1 _ _ _ goal h
                      (sent_files c db d g bytes written left o some_left enough s w pre b
                        (r ++ post) e (4096 - o) (omega arith) (omega arith) ok)
                      (subst (λ x. Updated c db d g bytes sent1 after.0 after.1 x) (in_place ok)
                        (rest sent1 pre1 h.formed
                          (sent_blocks c db d g bytes written left o some_left enough s w pre b
                            (r ++ post) e (4096 - o) (omega arith) (omega arith) ok)
                          success)))
          ]
      where
        new1 : Bytes
        new1 = take (4096 - o) (drop written bytes)

        more : Bytes
        more = take (left - (4096 - o)) (drop (written + (4096 - o)) bytes)

        sent1 : db.State
        sent1 = (db.query (write_block b.data_id (o + 1) (4096 - o) new1) s).1

        after : Progress × db.State
        after =
            update_blocks db rows bytes (written + (4096 - o)) (left - (4096 - o)) 0
              (u32 (b.index + 1)) sent1

        pre1 : List Block
        pre1 = pre ++ record b { bytes = splice (o + 1) (4096 - o) new1 b.bytes } ∷ []

        both : new1 ++ more ≡ take left (drop written bytes)
        both =
            ap (λ x. new1 ++ take (left - (4096 - o)) x) (drop-drop written (4096 - o) bytes)
            ∙ take-split (4096 - o) left (drop written bytes) (omega arith)

        in_place :
            (db.query (write_block b.data_id (o + 1) (4096 - o) new1) s).0 ≡ true
            → content_of pre1 ++ (overwrite 0 more (content_of r) ++ content_of post) ≡ goal
        in_place ok =
            ap (λ x. x ++ (overwrite 0 more (content_of r) ++ content_of post))
              (sent_content c db d g bytes written left o some_left enough s w pre b (r ++ post) e
                (4096 - o) (omega arith) (omega arith) ok)
            ∙ append_assoc (content_of pre) (overwrite o new1 b.bytes)
                (overwrite 0 more (content_of r) ++ content_of post)
            ∙ ap (λ x. content_of pre ++ x)
                (sym (
                    append_assoc (overwrite o new1 b.bytes) (overwrite 0 more (content_of r))
                      (content_of post))
                  ∙ ap (λ x. x ++ content_of post)
                      (sym (
                          overwrite-append_split o new1 b.bytes (content_of r) more (
                            omega (
                              arith,
                              length-take (4096 - o) (drop written bytes),
                              length-drop written bytes,
                            )))
                        ∙ ap (λ x. overwrite o x (b.bytes ++ content_of r)) both))

        size :
            (if written == 0 then at_most (block_size - o) left else at_most block_size left)
            ≡ 4096 - o
        size = size_of c db d g bytes written left o z ∙ ground arith
