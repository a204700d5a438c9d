-- ===== src/Store/Content/Fill.antt =====
-- The last block of a file takes more bytes, up to what it has room for, and what is left after it
-- goes to blocks of its own.
use mathlib.Core.Path.{subst}
use myfs.Base.{
  ℕ, ◌+◌, ◌-◌, ◌*◌, ◌^◌, ◌≤◌, ◌<◌, ◌≡◌, ap, sym, ◌∙◌, ◌⊎◌, inl, inr, [], ◌∷◌, ◌++◌, Bytes, ltb,
  Bool-cases, length, u32, length-append, append_assoc, arith,
}
use myfs.Sql.Tables.{Tables, Block, edit_block, with_blocks, last}
use myfs.Store.Content.{content, content_of, WellFormed, Changed}
use myfs.Store.Content.Packed.{last-nil, front, content_of-snoc}
use myfs.Store.Content.Steps.{
  edit_block-Changed, blocks-edit_self, Ends-split, content_split, length_split,
}
use myfs.Store.Content.Room.{Ready}
use myfs.Store.Block.{block_size, at_most}

module _ (t : Tables) (w : WellFormed t) (g left : ℕ)
    (room : length (content t g) + left + 8192 ≤ 2 ^ 44) where
  pub none-Ready : last (t.blocks g) ≡ [] → Ready g t 0 left
  none-Ready e = record {
    formed = w;
    aligned = rw (last-nil (t.blocks g) e);
    at_end = rw (last-nil (t.blocks g) e);
    room = omega arith;
  }

  module _ (b : Block) (e : last (t.blocks g) ≡ b ∷ []) where
    length-content : length (content t g) ≡ 4096 * length (front (t.blocks g)) + length b.bytes
    length-content = omega (
      arith,
      ap length (content_split t w g b e),
      length-append (content_of (front (t.blocks g))) b.bytes,
      (Ends-split t w g b e).aligned,
    )

    pub full-Ready : length b.bytes ≡ 4096 → Ready g t (u32 (b.index + 1)) left
    full-Ready full = record {
      formed = w;
      aligned = omega (arith, length-content, length_split t w g b e);
      at_end = omega (arith, length_split t w g b e, (Ends-split t w g b e).index, length-content);
      room = omega (arith, (Ends-split t w g b e).index, length-content);
    }

    abbrev pub fit : ℕ
    fit = at_most (block_size - length b.bytes) left

    module _ (first : Bytes) (l : length first ≡ fit) (some_room : length b.bytes < 4096) where
      abbrev more_bytes : Bytes → Bytes
      more_bytes old = old ++ first

      abbrev filled : Tables
      filled = with_blocks t (edit_block b.data_id more_bytes)

      whole : content t g ++ first ≡ content_of (front (t.blocks g)) ++ more_bytes b.bytes
      whole =
          ap (λ x. x ++ first) (content_split t w g b e)
          ∙ append_assoc (content_of (front (t.blocks g))) b.bytes first

      -- The last block takes the first bytes.
      pub fill-Changed : Changed t filled g (content t g ++ first)
      fill-Changed =
          subst (λ x. Changed t filled g x) (sym whole)
            (edit_block-Changed t w g b e more_bytes
              (ground (arith, (Ends-split t w g b e).some_bytes, length-append b.bytes first))
              (ground (arith, length-append b.bytes first, l)))

      length-filled :
          length (content_of (front (t.blocks g) ++ record b { bytes = more_bytes b.bytes } ∷ []))
          ≡ 4096 * length (front (t.blocks g)) + (length b.bytes + length first)
      length-filled = omega (
        arith,
        ap length (content_of-snoc (front (t.blocks g)) (record b { bytes = more_bytes b.bytes })),
        length-append (content_of (front (t.blocks g))) (more_bytes b.bytes),
        length-append b.bytes first,
        (Ends-split t w g b e).aligned,
      )

      -- After it, what is left goes to blocks of its own.
      pub fill-Ready : (left - fit ≡ 0) ⊎ Ready g filled (u32 (b.index + 1)) (left - fit)
      fill-Ready = elim (Bool-cases (ltb (block_size - length b.bytes) left)) [
        | inr small ↦ inl (ground arith)
        | inl big ↦
            let f : fit ≡ block_size - length b.bytes = ground arith in
            inr (rw f (ready (l ∙ f) (ground arith)))
      ]
        where
          n :
              length (front (t.blocks g) ++ record b { bytes = more_bytes b.bytes } ∷ [])
              ≡ length (front (t.blocks g)) + 1
          n = length-append (front (t.blocks g)) (record b { bytes = more_bytes b.bytes } ∷ [])

          ready :
              length first ≡ block_size - length b.bytes
              → block_size - length b.bytes < left
              → Ready g filled (u32 (b.index + 1)) (left - (block_size - length b.bytes))
          ready m big = record {
            formed = fill-Changed.formed;
            aligned = rw (blocks-edit_self t w g b e more_bytes) (omega (arith, n, length-filled));
            at_end =
                rw (blocks-edit_self t w g b e more_bytes)
                  (omega (arith, n, (Ends-split t w g b e).index, length-content));
            room = omega (arith, (Ends-split t w g b e).index, length-content);
          }
