-- ===== src/Store/Content/Room.antt =====
-- A file that can take more blocks at its end, and what one more does.
use myfs.Base.{
  ℕ, ◌+◌, ◌-◌, ◌*◌, ◌^◌, ◌≤◌, ◌<◌, ◌≡◌, [], ◌∷◌, ◌++◌, Bytes, length, u32, length-append, ap, List,
  All-map, arith,
}
use myfs.Sql.Tables.{Tables, Block, add_block}
use myfs.Store.Content.{content_of, content, WellFormed, Changed, IsOwned}
use myfs.Store.Content.Packed.{IsAligned, content_of-snoc}
use myfs.Store.Content.Steps.{add_block-Changed, blocks-add_block_self}

-- File `g` can take `left` more bytes in blocks from `index` on.
pub record Ready (g : ℕ) (t : Tables) (index left : ℕ) : Type 0 where
  pub formed : WellFormed t
  pub aligned : IsAligned (t.blocks g)
  pub at_end : index ≡ length (t.blocks g)
  pub room : 4096 * index + left + 4096 ≤ 2 ^ 44

-- Numbers of AUTO_INCREMENT that are passed over do not matter to the blocks.
abbrev pub ahead : ℕ → Tables → Tables
ahead n t = record t { next_block = t.next_block + n }

pub Ready-ahead :
    (g : ℕ) (t : Tables) (index left n : ℕ) → Ready g t index left → Ready g (ahead n t) index left
Ready-ahead g t index left n h = record {
  formed = record {
    next_pos = omega (arith, h.formed.next_pos);
    owner = h.formed.owner;
    owned = λ f.
        All-map (IsOwned h.formed.owner t.next_block f)
          {Q = IsOwned h.formed.owner (t.next_block + n) f} (λ b o. (o.0, o.1, omega (arith, o.2)))
          (t.blocks f) (h.formed.owned f);
    distinct = h.formed.distinct;
    packed = h.formed.packed;
  };
  aligned = h.aligned;
  at_end = h.at_end;
  room = h.room;
}

pub Changed-ahead :
    (g : ℕ) (t t' : Tables) (n : ℕ) (x : Bytes) → Changed (ahead n t) t' g x → Changed t t' g x
Changed-ahead g t t' n x h = record {
  formed = h.formed;
  content_is = h.content_is;
  others = h.others;
}

module _ (g : ℕ) (t : Tables) (index left : ℕ) (h : Ready g t index left) (chunk : Bytes) where
  pub Ready-Changed :
      0 < length chunk
      → length chunk ≤ 4096
      → Changed t (add_block g index chunk t) g (content t g ++ chunk)
  Ready-Changed = add_block-Changed t h.formed g index chunk h.aligned h.at_end

  abbrev appended : List Block
  appended = t.blocks g ++ record { data_id = t.next_block; index = index; bytes = chunk } ∷ []

  length-appended : length appended ≡ length (t.blocks g) + 1
  length-appended =
      length-append (t.blocks g)
        (record { data_id = t.next_block; index = index; bytes = chunk } ∷ [])

  length-content-appended : length (content_of appended) ≡ length (content t g) + length chunk
  length-content-appended = omega (
    arith,
    ap length (
        content_of-snoc (t.blocks g)
          (record { data_id = t.next_block; index = index; bytes = chunk })),
    length-append (content t g) chunk,
  )

  -- The file is full up to the chunk, if more is left.
  pub Ready-add :
      length chunk ≡ 4096
      → 4096 < left
      → Ready g (add_block g index chunk t) (u32 (index + 1)) (left - 4096)
  Ready-add full big = record {
    formed = (Ready-Changed (omega arith) (omega arith)).formed;
    aligned = rw blocks (omega (arith, length-appended, length-content-appended, h.aligned));
    at_end = rw blocks (omega (arith, length-appended, h.at_end, h.room));
    room = omega (arith, h.room);
  }
    where
      blocks : (add_block g index chunk t).blocks g ≡ appended
      blocks = blocks-add_block_self t h.formed g index chunk h.aligned h.at_end
