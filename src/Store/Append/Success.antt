-- ===== src/Store/Append/Success.antt =====
-- `append` succeeds on a reliable server, where the file has its row.
use myfs.Base.{
  ℕ, ◌+◌, ◌-◌, ◌^◌, ◌≤◌, ◌<◌, ◌≡◌, refl, ◌∙◌, ◌⊎◌, inl, inr, true, false, some, List, [], ◌∷◌,
  Bytes, ltb, ◌==◌, Bool-cases, length, head?, map, u32, length-drop, arith,
}
use myfs.Sql.{Sql, BlockHead, start_transaction, last_block, add_size, concat_block}
use myfs.Sql.Tables.{Tables, Block, Collation, head_of, last}
use myfs.Sql.Keys.{accepts, edit_fits, has_file}
use myfs.Sql.Laws.{Documented, Reliable}
use myfs.Sql.Steps.{tables_of, start_tables}
use myfs.Sql.Accept.{has_file-edit_file}
use myfs.Store.Content.{content, WellFormed, WellFormed-files}
use myfs.Store.Content.Packed.{last-cases}
use myfs.Store.Content.Steps.{Ends-split, last_pos}
use myfs.Store.Content.Room.{Ready}
use myfs.Store.Content.Fill.{none-Ready, full-Ready}
use myfs.Store.Content.Allowed.{edit_fits-last}
use myfs.Store.Block.{block_size}
use myfs.Store.Block.Insert.{insert_blocks_or_done}
use myfs.Store.Append.{append_rest, append_last, append_body, append}
use myfs.Store.Append.Last.{concat, fit, first, length-first, tables-concat, concat-Ready}
use myfs.Store.Append.Content.{tables-sized, sized_files}

module _ (c : Collation) (db : Sql) (d : Documented c db) (r : Reliable c db d) (g : ℕ)
    (bytes : Bytes) where
  append_rest_done :
      (written index : ℕ) (s : db.State)
      → (length bytes - written ≡ 0) ⊎ Ready g (tables_of c db d s) index (length bytes - written)
      → has_file g (tables_of c db d s) ≡ true
      → (append_rest db g bytes written index s).0 ≡ true
  unfolding append_rest
  append_rest_done written index s h row =
      insert_blocks_or_done c db d g r bytes written (length bytes - written) index s h row
        (omega (arith, length-drop written bytes))

  module _ (s : db.State) (w : WellFormed (tables_of c db d s))
      (room : length (content (tables_of c db d s) g) + length bytes + 8192 ≤ 2 ^ 44)
      (row : has_file g (tables_of c db d s) ≡ true) where
    abbrev t : Tables
    t = tables_of c db d s

    append_last-some_done :
        (b : Block) (e : last (t.blocks g) ≡ b ∷ [])
        → (append_last db g bytes (some (head_of b)) s).0 ≡ true
    unfolding append_last accepts
    append_last-some_done b e = rw known (elim (Bool-cases (ltb (length b.bytes) block_size)) [
      | inr full ↦ rw full (
          append_rest_done 0 (u32 (b.index + 1)) s
            (inr (
              full-Ready t w g (length bytes - 0) (omega arith) b e
                (ground (arith, (Ends-split t w g b e).fits))))
            row)
      | inl some_room ↦ rw (some_room, ok (ground arith)) (after (ground arith))
    ])
      where
        known : (b.data_id == 0) ≡ false
        known = ground (arith, last_pos t w g b e)

        fits : (size : Bytes → ℕ) → size b.bytes ≤ 4096 → edit_fits t b.data_id size ≡ true
        fits size le = edit_fits-last t w g b e size le

        allowed :
            length b.bytes < 4096
            → accepts c (concat_block b.data_id (first c db d g bytes s w room b e)) t ≡ true
        allowed some_room =
            fits (λ old. length old + length (first c db d g bytes s w room b e))
              (ground (arith, length-first c db d g bytes s w room b e))

        ok : length b.bytes < 4096 → (concat c db d g bytes s w room b e).0 ≡ true
        ok some_room =
            r.accepted (concat_block b.data_id (first c db d g bytes s w room b e)) s
              (allowed some_room)

        after :
            length b.bytes < 4096
            → (append_rest db g bytes
                (fit c db d g bytes s w room b e)
                (u32 (b.index + 1))
                (concat c db d g bytes s w room b e).1).0
              ≡ true
        after some_room =
            append_rest_done (fit c db d g bytes s w room b e) (u32 (b.index + 1))
              (concat c db d g bytes s w room b e).1
              (concat-Ready c db d g bytes s w room b e some_room (ok some_room))
              (rw (tables-concat c db d g bytes s w room b e (ok some_room)) row)

    append_last_done :
        (rows : List BlockHead)
        → rows ≡ map head_of (last (t.blocks g))
        → (append_last db g bytes (head? rows) s).0 ≡ true
    unfolding append_last
    append_last_done rows e = elim (last-cases (t.blocks g)) [
      | inl none_there ↦
          rw (e, none_there)
            (append_rest_done 0 0 s
              (inr (none-Ready t w g (length bytes - 0) (omega arith) none_there)) row)
      | inr (b, there) ↦ rw (e, there) (append_last-some_done b there)
    ]

  append_body_done :
      (s : db.State)
      → (w : WellFormed (tables_of c db d s))
      → (room : length (content (tables_of c db d s) g) + length bytes + 8192 ≤ 2 ^ 44)
      → has_file g (tables_of c db d s) ≡ true
      → (append_body db g bytes s).0 ≡ true
  unfolding append_body accepts
  append_body_done s w room row =
      let (rows, there) = r.selected (last_block g) s in
      let s1 = (db.select (last_block g) s).1 in
      let ok : (db.query (add_size g (length bytes)) s1).0 ≡ true =
        r.accepted (add_size g (length bytes)) s1 refl in
      let sized = tables-sized c db d g bytes s w room ok in
      rw (there, ok, append_body)
        (append_last_done (db.query (add_size g (length bytes)) s1).1
          (rw sized (WellFormed-files (tables_of c db d s) (sized_files c db d g bytes s w room) w))
          (rw sized room)
          (rw sized (has_file-edit_file g g (length bytes) (tables_of c db d s).files ∙ row)) rows
          (rw sized (d.answered (last_block g) s rows there)))

  -- On a reliable server `append` reports success, where the file has a row and there is room.
  pub append_succeeds :
      (s : db.State)
      → WellFormed (tables_of c db d s)
      → length (content (tables_of c db d s) g) + length bytes + 8192 ≤ 2 ^ 44
      → has_file g (tables_of c db d s) ≡ true
      → (append db g bytes s).0 ≡ true
  unfolding append accepts
  append_succeeds s w room row =
      let started : (db.query start_transaction s).0 ≡ true = r.accepted start_transaction s refl in
      let same = start_tables c db d s in
      rw (started, append)
        (append_body_done (db.query start_transaction s).1 (rw same w) (rw same room) (rw same row))
