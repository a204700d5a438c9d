-- ===== src/Store/Content/Steps.antt =====
-- The three ways in which the rows of a file change, on well-formed tables: a block is added at the
-- end, the last block gets other data, the last block is removed.
use mathlib.Core.Path.{subst}
use native.Mathlib.Decide.{ℕ_discrete}
use myfs.Base.{
  ℕ, ◌+◌, ◌≤◌, ◌<◌, ◌≡◌, ◌≢◌, ap, sym, ◌∙◌, List, [], ◌∷◌, ◌++◌, Bytes, All, All-map, All-snoc,
  All-last, All-front, ◌==◌, if◌then◌else◌, length, length-append, arith, ==_refl,
}
use myfs.Sql.Tables.{Tables, Block, last, edit_block, drop_block, add_block, with_blocks}
use myfs.Store.Content.{
  content_of, content, Packed, IsOther, Distinct, IsOwned, WellFormed, Changed,
}
use myfs.Store.Content.Packed.{
  IsAligned, content_of-snoc, place_block-last, Packed-snoc, Ends, Packed-Ends, front, front-last,
}
use myfs.Store.Content.Edit.{
  edit_block-absent, drop_block-absent, edit_block-last, drop_block-last, Distinct-snoc,
  Distinct-front, Distinct-others, IsOwned-IsOther, IsOwned-new,
}

-- What holds of the rows of `g` and of those of the others holds of all.
pub per_file :
    (f : ℕ → List Block) (P : ℕ → List Block → Type 0) (g : ℕ) (bs : List Block)
    → f g ≡ bs
    → P g bs
    → ((h : ℕ) → h ≢ g → P h (f h))
    → (h : ℕ) → P h (f h)
per_file f P g bs e p q h = elim (ℕ_discrete h g) [
  | yes same ↦ subst (λ k. P k (f k)) (sym same) (subst (P g) (sym e) p)
  | no ne ↦ q h ne
]

module _ (t : Tables) (w : WellFormed t) (g : ℕ) where
  module _ (i : ℕ) (bytes : Bytes) where
    abbrev new_block : Block
    new_block = record { data_id = t.next_block; index = i; bytes = bytes }

    abbrev new_owner : ℕ → ℕ
    new_owner k = if k == t.next_block then g else w.owner k

    IsOwned-new_owner :
        (h : ℕ) (b : Block)
        → IsOwned w.owner t.next_block h b
        → IsOwned new_owner (t.next_block + 1) h b
    IsOwned-new_owner h b o = ground arith

    abbrev added : Tables
    added = add_block g i bytes t

    blocks-add_block_ne : (h : ℕ) → h ≢ g → added.blocks h ≡ t.blocks h
    blocks-add_block_ne h ne = ground arith

    IsOwned-still : (h : ℕ) → All (IsOwned new_owner (t.next_block + 1) h) (t.blocks h)
    IsOwned-still h =
        All-map (IsOwned w.owner t.next_block h) {Q = IsOwned new_owner (t.next_block + 1) h}
          (IsOwned-new_owner h) (t.blocks h) (w.owned h)

    module _ (a : IsAligned (t.blocks g)) (e : i ≡ length (t.blocks g)) where
      pub blocks-add_block_self : added.blocks g ≡ t.blocks g ++ new_block ∷ []
      blocks-add_block_self =
          rw (==_refl g) (place_block-last 0 new_block (t.blocks g) (w.packed g) (omega arith))

      -- A block at the end of a file whose blocks are full, numbered after them.
      pub add_block-Changed :
          0 < length bytes → length bytes ≤ 4096 → Changed t added g (content t g ++ bytes)
      add_block-Changed p q = record {
        formed = record {
          next_pos = omega arith;
          owner = new_owner;
          owned =
              per_file added.blocks (λ h. All (IsOwned new_owner (t.next_block + 1) h)) g _
                blocks-add_block_self
                (All-snoc (IsOwned new_owner (t.next_block + 1) g) (t.blocks g) new_block
                  (IsOwned-still g) (ground (arith, w.next_pos)))
                (λ h ne. rw (blocks-add_block_ne h ne) (IsOwned-still h));
          distinct =
              per_file added.blocks (λ h. Distinct) g _ blocks-add_block_self
                (Distinct-snoc (t.blocks g) new_block (w.distinct g)
                  (IsOwned-new w.owner t.next_block g (t.blocks g) (w.owned g)))
                (λ h ne. rw (blocks-add_block_ne h ne) (w.distinct h));
          packed =
              per_file added.blocks (λ h. Packed 0) g _ blocks-add_block_self
                (Packed-snoc 0 new_block (t.blocks g) (w.packed g) a (omega arith) p q)
                (λ h ne. rw (blocks-add_block_ne h ne) (w.packed h));
        };
        content_is = rw blocks-add_block_self (content_of-snoc (t.blocks g) new_block);
        others = blocks-add_block_ne;
      }

  module _ (b : Block) (l : last (t.blocks g) ≡ b ∷ []) where
    abbrev others_of : List Block
    others_of = front (t.blocks g)

    pub split_last : t.blocks g ≡ others_of ++ b ∷ []
    split_last = front-last b (t.blocks g) l

    IsOwned-split : All (IsOwned w.owner t.next_block g) (others_of ++ b ∷ [])
    IsOwned-split = rw split_last at (w.owned g)

    pub Distinct-split : Distinct (others_of ++ b ∷ [])
    Distinct-split = rw split_last at (w.distinct g)

    pub Ends-split : Ends 0 others_of b
    Ends-split = Packed-Ends 0 others_of b (rw split_last at (w.packed g))

    pub last_pos : 0 < b.data_id
    last_pos = (All-last (IsOwned w.owner t.next_block g) others_of b IsOwned-split).1

    -- The content, by the last block and what is before it.
    pub content_split : content t g ≡ content_of others_of ++ b.bytes
    content_split = ap content_of split_last ∙ content_of-snoc others_of b

    pub length_split : length (t.blocks g) ≡ length others_of + 1
    length_split = ap length split_last ∙ length-append others_of (b ∷ [])

    pub absent_elsewhere : (h : ℕ) → h ≢ g → All (IsOther b.data_id) (t.blocks h)
    absent_elsewhere h ne =
        IsOwned-IsOther w.owner t.next_block g h b (t.blocks h) (λ e. ne (sym e))
          (All-last (IsOwned w.owner t.next_block g) others_of b IsOwned-split).0 (w.owned h)

    module _ (f : Bytes → Bytes) where
      abbrev edited : Tables
      edited = with_blocks t (edit_block b.data_id f)

      abbrev new_last : Block
      new_last = record b { bytes = f b.bytes }

      blocks-edit_ne : (h : ℕ) → h ≢ g → edited.blocks h ≡ t.blocks h
      blocks-edit_ne h ne = edit_block-absent b.data_id f (t.blocks h) (absent_elsewhere h ne)

      pub blocks-edit_self : edited.blocks g ≡ others_of ++ new_last ∷ []
      blocks-edit_self =
          ap (edit_block b.data_id f) split_last ∙ edit_block-last f others_of b Distinct-split

      -- The last block with other data.
      pub edit_block-Changed :
          0 < length (f b.bytes)
          → length (f b.bytes) ≤ 4096
          → Changed t edited g (content_of others_of ++ f b.bytes)
      edit_block-Changed p q = record {
        formed = record {
          next_pos = w.next_pos;
          owner = w.owner;
          owned =
              per_file edited.blocks (λ h. All (IsOwned w.owner t.next_block h)) g _
                blocks-edit_self
                (All-snoc (IsOwned w.owner t.next_block g) others_of new_last
                  (All-front (IsOwned w.owner t.next_block g) others_of b IsOwned-split)
                  (All-last (IsOwned w.owner t.next_block g) others_of b IsOwned-split))
                (λ h ne. rw (blocks-edit_ne h ne) (w.owned h));
          distinct =
              per_file edited.blocks (λ h. Distinct) g _ blocks-edit_self
                (Distinct-snoc others_of new_last (Distinct-front others_of b Distinct-split)
                  (Distinct-others others_of b Distinct-split))
                (λ h ne. rw (blocks-edit_ne h ne) (w.distinct h));
          packed =
              per_file edited.blocks (λ h. Packed 0) g _ blocks-edit_self
                (Packed-snoc 0 new_last others_of Ends-split.packed Ends-split.aligned
                  Ends-split.index p q)
                (λ h ne. rw (blocks-edit_ne h ne) (w.packed h));
        };
        content_is = rw blocks-edit_self (content_of-snoc others_of new_last);
        others = blocks-edit_ne;
      }

    abbrev dropped : Tables
    dropped = with_blocks t (drop_block b.data_id)

    blocks-drop_ne : (h : ℕ) → h ≢ g → dropped.blocks h ≡ t.blocks h
    blocks-drop_ne h ne = drop_block-absent b.data_id (t.blocks h) (absent_elsewhere h ne)

    pub blocks-drop_self : dropped.blocks g ≡ others_of
    blocks-drop_self =
        ap (drop_block b.data_id) split_last ∙ drop_block-last others_of b Distinct-split

    -- The file without its last block.
    pub drop_block-Changed : Changed t dropped g (content_of others_of)
    drop_block-Changed = record {
      formed = record {
        next_pos = w.next_pos;
        owner = w.owner;
        owned =
            per_file dropped.blocks (λ h. All (IsOwned w.owner t.next_block h)) g _ blocks-drop_self
              (All-front (IsOwned w.owner t.next_block g) others_of b IsOwned-split)
              (λ h ne. rw (blocks-drop_ne h ne) (w.owned h));
        distinct =
            per_file dropped.blocks (λ h. Distinct) g _ blocks-drop_self
              (Distinct-front others_of b Distinct-split)
              (λ h ne. rw (blocks-drop_ne h ne) (w.distinct h));
        packed =
            per_file dropped.blocks (λ h. Packed 0) g _ blocks-drop_self Ends-split.packed
              (λ h ne. rw (blocks-drop_ne h ne) (w.packed h));
      };
      content_is = rw blocks-drop_self;
      others = blocks-drop_ne;
    }
