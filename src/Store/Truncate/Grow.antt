-- ===== src/Store/Truncate/Grow.antt =====
-- The growth of a file by `myfs_db_file_truncate`: blanks for its last block, and blocks of blanks.
use mathlib.Core.Path.{subst}
use myfs.Base.{
  ℕ, ◌+◌, ◌-◌, ◌^◌, ◌≤◌, ◌<◌, ◌≡◌, refl, ap, ◌∙◌, inl, inr, Bool, true, false, some, Option,
  Option-cases, List, [], ◌∷◌, ◌++◌, ltb, ◌==◌, Bool-cases, length, u32, head?, map,
  length-replicate, arith,
}
use myfs.Sql.{Sql, BlockHead, last_block, pad_block}
use myfs.Sql.Tables.{
  Tables, Block, Collation, effect, edit_block, with_blocks, head_of, last, space,
}
use myfs.Sql.Laws.{Documented}
use myfs.Sql.Steps.{tables_of, tables_after, saved_after, tables_unchanged, saved_unchanged}
use myfs.Store.Content.{content, WellFormed}
use myfs.Store.Content.Packed.{last-cases}
use myfs.Store.Content.Steps.{Ends-split, last_pos}
use myfs.Store.Content.Fill.{none-Ready, full-Ready, fit, fill-Changed, fill-Ready}
use myfs.Store.Block.{block_size}
use myfs.Store.Block.Insert.{Ran, Ran-false}
use myfs.Store.Truncate.{insert_blanks, grow_last, grow}
use myfs.Store.Truncate.Blanks.{blanks, follow, insert_blanks_or}

module _ (c : Collation) (db : Sql) (d : Documented c db) (g left : ℕ) where
  module _ (s : db.State) (w : WellFormed (tables_of c db d s))
      (room : length (content (tables_of c db d s) g) + left + 8192 ≤ 2 ^ 44) where
    abbrev t : Tables
    t = tables_of c db d s

    module _ (b : Block) (e : last (t.blocks g) ≡ b ∷ []) where
      abbrev n : ℕ
      n = fit t w g left room b e

      abbrev pad : Bool × db.State
      pad = db.query (pad_block b.data_id n) s

      tables-pad :
          pad.0 ≡ true
          → tables_of c db d pad.1 ≡ with_blocks t (edit_block b.data_id (λ old. old ++ blanks n))
      unfolding effect
      tables-pad ok = tables_after c db d (pad_block b.data_id n) s (λ now v. refl) ok

      -- The last block is padded.
      pad-Ran : length b.bytes < 4096 → Ran c db d g s pad.0 pad.1 (content t g ++ blanks n)
      pad-Ran some_room = record {
        saved = saved_after c db d (pad_block b.data_id n) s (λ now v. refl);
        changed = λ ok.
            rw (tables-pad ok)
              (fill-Changed t w g left room b e (blanks n) (length-replicate n space) some_room);
        files = λ ok. ap (λ (u : Tables). u.files) (tables-pad ok);
      }

      grow_last-some :
          let r = grow_last db g left (some (head_of b)) s in
          Ran c db d g s r.0 r.1 (content t g ++ blanks left)
      unfolding grow_last
      grow_last-some = rw known (elim (Bool-cases (ltb (length b.bytes) block_size)) [
        | inr full ↦ rw full (
            insert_blanks_or c db d g left (u32 (b.index + 1)) s w
              (inr (full-Ready t w g left room b e (ground (arith, (Ends-split t w g b e).fits)))))
        | inl some_room ↦ rw some_room (elim (Bool-cases pad.0) [
          | inr failed ↦ rw failed (Ran-false c db d g s _ _ (pad-Ran (ground arith)).saved)
          | inl ok ↦ rw ok (after (ground arith) ok)
        ])
      ])
        where
          known : (b.data_id == 0) ≡ false
          known = ground (arith, last_pos t w g b e)

          after :
              length b.bytes < 4096
              → pad.0 ≡ true
              → let r = insert_blanks db (left - n) g (left - n) (u32 (b.index + 1)) pad.1 in
                Ran c db d g s r.0 r.1 (content t g ++ blanks left)
          after some_room ok =
              follow c db d g s pad.1 _ _ (content t g) n left (ground arith)
                (subst (λ k. Ran c db d g s k pad.1 (content t g ++ blanks n)) ok
                  (pad-Ran some_room))
                (insert_blanks_or c db d g (left - n) (u32 (b.index + 1)) pad.1
                  ((pad-Ran some_room).changed ok).formed
                  (rw (tables-pad ok) (
                    fill-Ready t w g left room b e (blanks n) (length-replicate n space)
                      some_room)))

    grow_last_lem :
        (rows : List BlockHead)
        → rows ≡ map head_of (last (t.blocks g))
        → let r = grow_last db g left (head? rows) s in
          Ran c db d g s r.0 r.1 (content t g ++ blanks left)
    unfolding grow_last
    grow_last_lem rows e = elim (last-cases (t.blocks g)) [
      | inl none_there ↦
          rw (e, none_there)
            (insert_blanks_or c db d g left 0 s w (inr (none-Ready t w g left room none_there)))
      | inr (b, there) ↦ rw (e, there) (grow_last-some b there)
    ]

  -- Blanks follow the content of the file, or a failure is reported.
  pub grow_lem :
      (s : db.State)
      → WellFormed (tables_of c db d s)
      → length (content (tables_of c db d s) g) + left + 8192 ≤ 2 ^ 44
      → let r = grow db g left s in
        Ran c db d g s r.0 r.1 (content (tables_of c db d s) g ++ blanks left)
  unfolding grow
  grow_lem s w room = elim (Option-cases found.0) [
    | inl lost ↦
        rw (grow, lost) (Ran-false c db d g s _ _ (saved_unchanged c db d (last_block g) s))
    | inr (rows, there) ↦ rw (grow, there) (from_rows rows there)
  ]
    where
      found : Option (List BlockHead) × db.State
      found = db.select (last_block g) s

      same : tables_of c db d found.1 ≡ tables_of c db d s
      same = tables_unchanged c db d (last_block g) s

      from_rows :
          (rows : List BlockHead)
          → found.0 ≡ some rows
          → let r = grow_last db g left (head? rows) found.1 in
            Ran c db d g s r.0 r.1 (content (tables_of c db d s) g ++ blanks left)
      from_rows rows there = record {
        saved = after.saved ∙ saved_unchanged c db d (last_block g) s;
        changed = λ ok. rw same at (after.changed ok);
        files = λ ok. after.files ok ∙ ap (λ (u : Tables). u.files) same;
      }
        where
          r : Bool × db.State
          r = grow_last db g left (head? rows) found.1

          after : Ran c db d g found.1 r.0 r.1 (content (tables_of c db d found.1) g ++ blanks left)
          after =
              grow_last_lem found.1 (rw same w) (rw same room) rows
                (rw same (d.answered (last_block g) s rows there))
