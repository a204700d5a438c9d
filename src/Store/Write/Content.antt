-- ===== src/Store/Write/Content.antt =====
-- What `myfs_db_file_write` does to the content of a file where the bytes lie inside it.
use mathlib.Core.Path.{subst}
use myfs.Base.{
  ℕ, ◌+◌, ◌*◌, ◌/◌, ◌%◌, ◌^◌, ◌≤◌, ◌≡◌, refl, ap, sym, ◌∙◌, inl, inr, Bool, true, false, Bool-cases,
  Option, Option-cases, some, List, ◌++◌, Bytes, length, take, drop, map, u32, take-ge, arith,
}
use myfs.Sql.{Sql, BlockHead, Select, start_transaction, blocks_from}
use myfs.Sql.Tables.{Tables, Block, Collation, head_of, from_index}
use myfs.Sql.Laws.{Commits, Documented}
use myfs.Sql.Steps.{tables_of, saved_of, tables_unchanged, start_tables}
use myfs.Store.Block.{block_index, block_offset, block_count}
use myfs.Store.Block.Transaction.{stop-true, stop-Lasts}
use myfs.Store.Content.{content, content_of, WellFormed, Changed}
use myfs.Store.Content.Seek.{from_index-drop}
use myfs.Store.Write.{Progress, update_blocks, write_rest, write_body, write}
use myfs.Store.Write.Failure.{write-kept}
use myfs.Store.Write.Overwrite.{overwrite}
use myfs.Store.Write.Left.{Updated}
use myfs.Store.Write.Update.{update_blocks_lem}
use myfs.Store.Write.Parts.{take-map, chosen, behind, three_parts, length-chosen, overwrite-parts}

module _ (c : Collation) (db : Sql) (d : Documented c db) (g : ℕ) (bytes : Bytes) (offset : ℕ) where
  -- From `s` to `s'`, where `success` is reported: on success only the blocks of `g` have changed, to
  -- hold `bytes` over its content from `offset` on; else nothing has.
  pub record Overwritten (s : db.State) (success : Bool) (s' : db.State) : Type 0 where
    pub changed :
        success ≡ true
        → Changed
            (tables_of c db d s)
            (tables_of c db d s')
            g
            (overwrite offset bytes (content (tables_of c db d s) g))
    pub files : success ≡ true → (tables_of c db d s').files ≡ (tables_of c db d s).files
    -- what a later ROLLBACK returns to
    pub lasting : success ≡ true → saved_of c db d s' ≡ tables_of c db d s'
    pub kept : success ≡ false → tables_of c db d s' ≡ tables_of c db d s

  -- What holds of the file and the bytes: there are as many blocks from the one that the offset is in
  -- on as the bytes alone would take, and all of them lie inside the file.
  module _ (s : db.State) (w : WellFormed (tables_of c db d s))
      (inside : offset + length bytes ≤ length (content (tables_of c db d s) g))
      (counted : offset % 4096 + length bytes ≤ 4096 * block_count (length bytes))
      (room : length (content (tables_of c db d s) g) + 4096 ≤ 2 ^ 44) where
    abbrev t : Tables
    t = tables_of c db d s

    abbrev i : ℕ
    i = offset / 4096

    abbrev n : ℕ
    n = block_count (length bytes)

    index_is : u32 (block_index offset) ≡ i
    unfolding block_index
    index_is = omega arith

    limit_is : u32 (block_count (length bytes)) ≡ n
    unfolding block_count
    limit_is = ground arith

    abbrev Body : Bool × db.State → Type 0
    Body r =
        r.0 ≡ true
        → Changed t (tables_of c db d r.1) g (overwrite offset bytes (content t g))
          × ((tables_of c db d r.1).files ≡ t.files)

    write_rest-Body :
        (p : Progress) (s' : db.State)
        → (p.success ≡ true → Updated c db d g bytes s p s' (overwrite offset bytes (content t g)))
        → Body (write_rest db g bytes p s')
    unfolding write_rest
    write_rest-Body p s' h = elim (Bool-cases p.success) [
      | inr failed ↦ rw failed (λ e. cc)
      | inl ok ↦ rw (ok, (h ok).none_left) (λ e. ((h ok).changed, (h ok).files))
    ]

    whole_blocks : 4096 * i ≤ length (content t g)
    whole_blocks = omega (arith, inside)

    abbrev query : Select
    query = blocks_from g (u32 (block_index offset)) (u32 (block_count (length bytes)))

    abbrev found : Option (List BlockHead) × db.State
    found = db.select query s

    same : tables_of c db d found.1 ≡ t
    same = tables_unchanged c db d query s

    abbrev touched : List Block
    touched = chosen (t.blocks g) (w.packed g) i n whole_blocks

    rows_are : (rows : List BlockHead) → found.0 ≡ some rows → rows ≡ map head_of touched
    rows_are rows there =
        d.answered query s rows there
        ∙ ap (λ k. take k (map head_of (from_index (u32 (block_index offset)) (t.blocks g))))
            limit_is
        ∙ ap (λ k. take n (map head_of (from_index k (t.blocks g)))) index_is
        ∙ ap (λ bs. take n (map head_of bs))
            (from_index-drop 0 i i (t.blocks g) (w.packed g) (omega arith))
        ∙ take-map head_of n (drop i (t.blocks g))

    offset_is : 4096 * i + block_offset offset ≡ offset
    unfolding block_offset
    offset_is = omega arith

    room_in : block_offset offset + length bytes ≤ length (content_of touched)
    unfolding block_offset
    room_in =
        length-chosen (t.blocks g) (w.packed g) i n whole_blocks (offset % 4096 + length bytes)
          counted (omega (arith, inside))

    abbrev updated : List BlockHead → Progress × db.State
    updated rows =
        update_blocks db rows bytes 0 (length bytes) (block_offset offset)
          (u32 (block_index offset)) found.1

    abbrev now : Bytes
    now = overwrite offset bytes (content t g)

    -- What the loop leaves, if it does not fail.
    abbrev Done : List BlockHead → Type 0
    Done rows =
        (updated rows).0.success ≡ true
        → Updated c db d g bytes s (updated rows).0 (updated rows).1 now

    parts_are :
        content_of (take i (t.blocks g))
          ++ (overwrite
                (block_offset offset)
                (take (length bytes) (drop 0 bytes))
                (content_of touched)
              ++ content_of (behind (t.blocks g) (w.packed g) i n whole_blocks))
        ≡ now
    parts_are = rw (take-ge (length bytes) bytes (omega arith)) (
        overwrite-parts (t.blocks g) (w.packed g) i n whole_blocks (block_offset offset) bytes
          room_in
        ∙ ap (λ k. overwrite k bytes (content t g)) offset_is)

    touched-Done : Done (map head_of touched)
    unfolding block_offset
    touched-Done ok = record {
      none_left = u.none_left;
      changed =
          subst (λ x. Changed t (tables_of c db d (updated (map head_of touched)).1) g x) parts_are
            (rw same at u.changed);
      files = u.files ∙ ap (λ (v : Tables). v.files) same;
    }
      where
        u :
            Updated c db d g bytes found.1
              (updated (map head_of touched)).0
              (updated (map head_of touched)).1
              (content_of (take i (t.blocks g))
                ++ (overwrite
                      (block_offset offset)
                      (take (length bytes) (drop 0 bytes))
                      (content_of touched)
                    ++ content_of (behind (t.blocks g) (w.packed g) i n whole_blocks)))
        u =
            update_blocks_lem c db d g bytes touched (take i (t.blocks g))
              (behind (t.blocks g) (w.packed g) i n whole_blocks) 0 (length bytes)
              (block_offset offset) (u32 (block_index offset)) found.1 (rw same w)
              (rw same (three_parts (t.blocks g) (w.packed g) i n whole_blocks)) (inr refl)
              (omega arith) (omega arith) room_in ok

    write_body-Body : Body (write_body db g bytes offset s)
    unfolding write_body block_offset
    write_body-Body = elim (Option-cases found.0) [
      | inl lost ↦ rw (write_body, lost) (λ e. cc)
      | inr (rows, there) ↦
          rw (write_body, there)
            (write_rest-Body (updated rows).0 (updated rows).1
              (subst Done (sym (rows_are rows there)) touched-Done))
    ]

  -- Where the tables are well-formed, the bytes lie inside the content of the file, and the blocks
  -- that they touch are as many as their number alone asks for, and no COMMIT fails: where `write`
  -- reports success, the content of the file has the bytes from the offset on in place of what was
  -- there and is otherwise as before, no other file's blocks and no row of `files` has changed, the
  -- tables are well-formed, and this is committed; where it reports a failure the tables are as they
  -- were.
  pub write_lem :
      (s : db.State)
      → WellFormed (tables_of c db d s)
      → offset + length bytes ≤ length (content (tables_of c db d s) g)
      → offset % 4096 + length bytes ≤ 4096 * block_count (length bytes)
      → length (content (tables_of c db d s) g) + 4096 ≤ 2 ^ 44
      → Commits db
      → Overwritten s (write db g bytes offset s).0 (write db g bytes offset s).1
  unfolding write
  write_lem s w inside counted room commits = record {
    changed = λ ok. (whole ok).0;
    files = λ ok. (whole ok).1;
    lasting = lasting;
    kept = write-kept c db d g bytes offset s;
  }
    where
      begun : Bool × db.State
      begun = db.query start_transaction s

      r : Bool × db.State
      r = write_body db g bytes offset begun.1

      same_start : tables_of c db d begun.1 ≡ tables_of c db d s
      same_start = start_tables c db d s

      body :
          r.0 ≡ true
          → Changed
              (tables_of c db d s)
              (tables_of c db d r.1)
              g
              (overwrite offset bytes (content (tables_of c db d s) g))
            × ((tables_of c db d r.1).files ≡ (tables_of c db d s).files)
      body = rw same_start at (
          write_body-Body begun.1 (rw same_start w) (rw same_start inside) counted
            (rw same_start room))

      whole :
          (write db g bytes offset s).0 ≡ true
          → Changed
              (tables_of c db d s)
              (tables_of c db d (write db g bytes offset s).1)
              g
              (overwrite offset bytes (content (tables_of c db d s) g))
            × ((tables_of c db d (write db g bytes offset s).1).files ≡ (tables_of c db d s).files)
      whole ok = elim (Bool-cases begun.0) [
        | inr not_begun ↦ cc (rw (write, not_begun) at ok)
        | inl began ↦
            rw (write, began, (rw (write, began) at ok), stop-true c db d r.1 commits)
              (body (rw (write, began) at ok))
      ]

      lasting :
          (write db g bytes offset s).0 ≡ true
          → let s' = (write db g bytes offset s).1 in saved_of c db d s' ≡ tables_of c db d s'
      lasting ok = elim (Bool-cases begun.0) [
        | inr not_begun ↦ cc (rw (write, not_begun) at ok)
        | inl began ↦ rw (write, began, (rw (write, began) at ok)) (stop-Lasts c db d r.1 commits)
      ]
