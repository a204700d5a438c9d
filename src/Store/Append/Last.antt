-- ===== src/Store/Append/Last.antt =====
-- The end of an append: the last block takes what it has room for, and new blocks the rest.
use mathlib.Core.Path.{subst}
use myfs.Base.{
  ℕ, ◌+◌, ◌-◌, ◌^◌, ◌≤◌, ◌<◌, ◌≡◌, refl, ap, sym, ◌∙◌, ◌⊎◌, inl, inr, Bool, true, false, none, some,
  List, [], ◌∷◌, ◌++◌, Bytes, ltb, ◌==◌, Bool-cases, length, take, drop, u32, head?, map,
  length-take, length-drop, append_assoc, take-append-drop, take-ge, arith,
}
use myfs.Sql.{Sql, BlockHead, concat_block}
use myfs.Sql.Tables.{Tables, Block, Collation, effect, edit_block, with_blocks, head_of, last}
use myfs.Sql.Laws.{Documented}
use myfs.Sql.Steps.{tables_of, tables_after, saved_after}
use myfs.Store.Content.{content, WellFormed}
use myfs.Store.Content.Packed.{last-cases}
use myfs.Store.Content.Steps.{Ends-split, last_pos}
use myfs.Store.Content.Room.{Ready}
use myfs.Store.Content.Fill.{none-Ready, full-Ready, fill-Changed, fill-Ready}
use myfs.Store.Block.{block_size, at_most}
use myfs.Store.Block.Insert.{Ran, Ran-false, Ran-trans, insert_blocks_or}
use myfs.Store.Append.{append_rest, append_last}

module _ (c : Collation) (db : Sql) (d : Documented c db) (g : ℕ) (bytes : Bytes) where
  append_rest_lem :
      (written index : ℕ) (s : db.State)
      → WellFormed (tables_of c db d s)
      → (length bytes - written ≡ 0) ⊎ Ready g (tables_of c db d s) index (length bytes - written)
      → let r = append_rest db g bytes written index s in
        Ran c db d g s r.0 r.1 (content (tables_of c db d s) g ++ drop written bytes)
  unfolding append_rest
  append_rest_lem written index s w h = rw (sym all) (
      insert_blocks_or c db d g bytes written (length bytes - written) index s w h
        (omega (arith, length-drop written bytes)))
    where
      all : take (length bytes - written) (drop written bytes) ≡ drop written bytes
      all =
          take-ge (length bytes - written) (drop written bytes)
            (omega (arith, length-drop written bytes))

  module _ (s : db.State) (w : WellFormed (tables_of c db d s))
      (room : length (content (tables_of c db d s) g) + length bytes + 8192 ≤ 2 ^ 44) where
    abbrev pub t : Tables
    t = tables_of c db d s

    append_last-none :
        last (t.blocks g) ≡ []
        → let r = append_last db g bytes none s in Ran c db d g s r.0 r.1 (content t g ++ bytes)
    unfolding append_last
    append_last-none e =
        append_rest_lem 0 0 s w (inr (none-Ready t w g (length bytes - 0) (omega arith) e))

    module _ (b : Block) (e : last (t.blocks g) ≡ b ∷ []) where
      abbrev pub room_left : ℕ
      room_left = block_size - length b.bytes

      abbrev pub first : Bytes
      first = take (at_most room_left (length bytes)) bytes

      abbrev pub concat : Bool × db.State
      concat = db.query (concat_block b.data_id first) s

      pub length-first : length first ≡ at_most room_left (length bytes)
      length-first = ground (arith, length-take (at_most room_left (length bytes)) bytes)

      abbrev pub more_bytes : Bytes → Bytes
      more_bytes old = old ++ first

      pub tables-concat :
          concat.0 ≡ true
          → tables_of c db d concat.1 ≡ with_blocks t (edit_block b.data_id more_bytes)
      unfolding effect
      tables-concat ok = tables_after c db d (concat_block b.data_id first) s (λ now v. refl) ok

      concat-Ran : length b.bytes < 4096 → Ran c db d g s concat.0 concat.1 (content t g ++ first)
      concat-Ran some_room = record {
        saved = saved_after c db d (concat_block b.data_id first) s (λ now v. refl);
        changed = λ ok.
            rw (tables-concat ok)
              (fill-Changed t w g (length bytes) room b e first length-first some_room);
        files = λ ok. ap (λ (u : Tables). u.files) (tables-concat ok);
      }

      abbrev pub fit : ℕ
      fit = at_most room_left (length bytes)

      -- After it, what is left goes to blocks of its own.
      pub concat-Ready :
          length b.bytes < 4096
          → concat.0 ≡ true
          → (length bytes - fit ≡ 0)
            ⊎ Ready g (tables_of c db d concat.1) (u32 (b.index + 1)) (length bytes - fit)
      concat-Ready some_room ok =
          rw (tables-concat ok)
            (fill-Ready t w g (length bytes) room b e first length-first some_room)

      append_last-some :
          let r = append_last db g bytes (some (head_of b)) s in
          Ran c db d g s r.0 r.1 (content t g ++ bytes)
      unfolding append_last
      append_last-some = rw known (elim (Bool-cases (ltb (length b.bytes) block_size)) [
        | inr full ↦ rw full (
            append_rest_lem 0 (u32 (b.index + 1)) s w (
              inr (
                full-Ready t w g (length bytes - 0) (omega arith) b e
                  (ground (arith, (Ends-split t w g b e).fits)))))
        | inl some_room ↦ rw some_room (elim (Bool-cases concat.0) [
          | inr no_effect ↦
              rw no_effect (Ran-false c db d g s _ _ (concat-Ran (ground arith)).saved)
          | inl ok ↦ rw ok (follow (ground arith) ok)
        ])
      ])
        where
          known : (b.data_id == 0) ≡ false
          known = ground (arith, last_pos t w g b e)

          follow :
              length b.bytes < 4096
              → concat.0 ≡ true
              → let r = append_rest db g bytes fit (u32 (b.index + 1)) concat.1 in
                Ran c db d g s r.0 r.1 (content t g ++ bytes)
          follow some_room ok =
              let now_there = ((concat-Ran some_room).changed ok).content_is in
              let p =
                append_rest_lem fit (u32 (b.index + 1)) concat.1
                  ((concat-Ran some_room).changed ok).formed (concat-Ready some_room ok) in
              Ran-trans c db d g s concat.1 _ _ (content t g ++ first) (content t g ++ bytes)
                (subst (λ k. Ran c db d g s k concat.1 (content t g ++ first)) ok
                  (concat-Ran some_room))
                (subst
                  (λ x.
                    Ran c db d g concat.1
                      (append_rest db g bytes fit (u32 (b.index + 1)) concat.1).0
                      (append_rest db g bytes fit (u32 (b.index + 1)) concat.1).1 x)
                  (same now_there) p)
            where
              same :
                  content (tables_of c db d concat.1) g ≡ content t g ++ first
                  → content (tables_of c db d concat.1) g ++ drop fit bytes ≡ content t g ++ bytes
              same n = rw n (
                  append_assoc (content t g) first (drop fit bytes)
                  ∙ ap (λ x. content t g ++ x) (take-append-drop fit bytes))

    -- The rows that the first SELECT returns are the last block, if there is one.
    pub append_last_lem :
        (rows : List BlockHead)
        → rows ≡ map head_of (last (t.blocks g))
        → let r = append_last db g bytes (head? rows) s in
          Ran c db d g s r.0 r.1 (content t g ++ bytes)
    append_last_lem rows e = elim (last-cases (t.blocks g)) [
      | inl none_there ↦ rw (e, none_there) (append_last-none none_there)
      | inr (b, there) ↦ rw (e, there) (append_last-some b there)
    ]
