-- ===== src/Store/Content/Middle.antt =====
-- A block anywhere in a file that gets other data of the same length.

use myfs.Base.{
  ℕ, suc, ◌≤◌, ◌≡◌, ◌≢◌, refl, ap, sym, ◌∙◌, List, [], ◌∷◌, ◌++◌, Bytes, All, length, arith,
  ==_refl,
}
use myfs.Sql.Tables.{Tables, Block, edit_block, with_blocks}
use myfs.Store.Content.{content_of, Packed, IsOther, Distinct, IsOwned, WellFormed, Changed}
use myfs.Store.Content.Edit.{edit_block-absent, IsOwned-IsOther}
use myfs.Store.Content.Packed.{content_of-append}
use myfs.Store.Content.Steps.{per_file}

module _ {ℓ κ} {A : Type ℓ} (P : A → Type κ) where
  All-middle : (xs : List A) (a : A) (ys : List A) → All P (xs ++ a ∷ ys) → P a
  All-middle [] a ys h = h.0
  All-middle (x ∷ xs) a ys h = All-middle xs a ys h.1

  All-replace :
      (xs : List A) (a b : A) (ys : List A) → P b → All P (xs ++ a ∷ ys) → All P (xs ++ b ∷ ys)
  All-replace [] a b ys p h = (p, h.1)
  All-replace (x ∷ xs) a b ys p h = (h.0, All-replace xs a b ys p h.1)

module _ (f : Bytes → Bytes) (b : Block) where
  abbrev new_block : Block
  new_block = record b { bytes = f b.bytes }

  edit_block-middle :
      (pre post : List Block)
      → Distinct (pre ++ b ∷ post)
      → edit_block b.data_id f (pre ++ b ∷ post) ≡ pre ++ new_block ∷ post
  edit_block-middle [] post h = rw (==_refl b.data_id, edit_block-absent b.data_id f post h.0) refl
  edit_block-middle (e ∷ r) post h =
      ground (arith, All-middle (IsOther e.data_id) r b post h.0, edit_block-middle r post h.1)

  Distinct-replace :
      (pre post : List Block) → Distinct (pre ++ b ∷ post) → Distinct (pre ++ new_block ∷ post)
  Distinct-replace [] post h = h
  Distinct-replace (e ∷ r) post h = (
    All-replace (IsOther e.data_id) r b new_block post (All-middle (IsOther e.data_id) r b post h.0)
        h.0,
    Distinct-replace r post h.1,
  )

  Packed-replace :
      (i : ℕ) (pre post : List Block)
      → length (f b.bytes) ≡ length b.bytes
      → Packed i (pre ++ b ∷ post)
      → Packed i (pre ++ new_block ∷ post)
  Packed-replace i [] [] e h = omega arith
  Packed-replace i [] (d ∷ r) e h = (h.0, omega arith, h.2)
  Packed-replace i (x ∷ []) post e h = (h.0, h.1, Packed-replace (suc i) [] post e h.2)
  Packed-replace i (x ∷ y ∷ r) post e h = (h.0, h.1, Packed-replace (suc i) (y ∷ r) post e h.2)

-- A block with another behind it is full, and every block is at most that.
pub Packed-full :
    (i : ℕ) (pre : List Block) (b d : Block) (post : List Block)
    → Packed i (pre ++ b ∷ d ∷ post)
    → length b.bytes ≡ 4096
Packed-full i [] b d post h = h.1
Packed-full i (x ∷ []) b d post h = Packed-full (suc i) [] b d post h.2
Packed-full i (x ∷ y ∷ r) b d post h = Packed-full (suc i) (y ∷ r) b d post h.2

pub Packed-fits :
    (i : ℕ) (pre : List Block) (b : Block) (post : List Block)
    → Packed i (pre ++ b ∷ post)
    → length b.bytes ≤ 4096
Packed-fits i [] b [] h = h.2
Packed-fits i [] b (d ∷ post) h = omega arith
Packed-fits i (x ∷ []) b post h = Packed-fits (suc i) [] b post h.2
Packed-fits i (x ∷ y ∷ r) b post h = Packed-fits (suc i) (y ∷ r) b post h.2

module _ (t : Tables) (w : WellFormed t) (g : ℕ) (pre : List Block) (b : Block) (post : List Block)
    (e : t.blocks g ≡ pre ++ b ∷ post) (f : Bytes → Bytes)
    (same : length (f b.bytes) ≡ length b.bytes) where
  abbrev edited : Tables
  edited = with_blocks t (edit_block b.data_id f)

  pub blocks-edit_middle : edited.blocks g ≡ pre ++ new_block f b ∷ post
  blocks-edit_middle =
      ap (edit_block b.data_id f) e ∙ edit_block-middle f b pre post (rw e at (w.distinct g))

  blocks-edit_ne : (h : ℕ) → h ≢ g → edited.blocks h ≡ t.blocks h
  blocks-edit_ne h ne = edit_block-absent b.data_id f (t.blocks h) (
      IsOwned-IsOther w.owner t.next_block g h b (t.blocks h) (λ x. ne (sym x))
        (All-middle (IsOwned w.owner t.next_block g) pre b post (rw e at (w.owned g))).0
        (w.owned h))

  pub edit_middle-Changed : Changed t edited g (content_of pre ++ (f b.bytes ++ content_of post))
  edit_middle-Changed = record {
    formed = record {
      next_pos = w.next_pos;
      owner = w.owner;
      owned =
          per_file edited.blocks (λ h. All (IsOwned w.owner t.next_block h)) g _ blocks-edit_middle
            (All-replace (IsOwned w.owner t.next_block g) pre b (new_block f b) post
              (All-middle (IsOwned w.owner t.next_block g) pre b post (rw e at (w.owned g)))
              (rw e at (w.owned g)))
            (λ h ne. rw (blocks-edit_ne h ne) (w.owned h));
      distinct =
          per_file edited.blocks (λ h. Distinct) g _ blocks-edit_middle
            (Distinct-replace f b pre post (rw e at (w.distinct g)))
            (λ h ne. rw (blocks-edit_ne h ne) (w.distinct h));
      packed =
          per_file edited.blocks (λ h. Packed 0) g _ blocks-edit_middle
            (Packed-replace f b 0 pre post same (rw e at (w.packed g)))
            (λ h ne. rw (blocks-edit_ne h ne) (w.packed h));
    };
    content_is = rw blocks-edit_middle (content_of-append pre (new_block f b ∷ post));
    others = blocks-edit_ne;
  }
