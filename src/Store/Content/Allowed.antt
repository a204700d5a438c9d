-- ===== src/Store/Content/Allowed.antt =====
-- On well-formed tables the keys and the column type allow a block at the end of a file, and more
-- bytes for its last block while it has room.
use native.Mathlib.Decide.{ℕ_discrete}
use myfs.Base.{
  ℕ, suc, ◌+◌, ◌≤◌, ◌≡◌, refl, ◌∙◌, ap, true, false, none, some, List, [], ◌∷◌, ◌++◌, Bytes, ◌==◌,
  All, length, arith, ==_refl,
}
use myfs.Sql.Tables.{Tables, Block, any, find_block, last}
use myfs.Sql.Keys.{is_over, is_free, edit_fits}
use myfs.Sql.Accept.{edit_fits_all}
use myfs.Store.Content.{Packed, IsOther, WellFormed}
use myfs.Store.Content.Packed.{front}
use myfs.Store.Content.Edit.{Distinct-others}
use myfs.Store.Content.Steps.{split_last, absent_elsewhere, Distinct-split}

any-index :
    (i k : ℕ) (bs : List Block)
    → Packed i bs
    → i + length bs ≤ k
    → any (λ b. b.index == k) bs ≡ false
any-index i k [] h le = refl
any-index i k (b ∷ []) h le = ground arith
any-index i k (b ∷ e ∷ r) h le = ground (arith, any-index (suc i) k (e ∷ r) h.2 (omega arith))

pub is_free-end : (t : Tables) (g : ℕ) → WellFormed t → is_free g (length (t.blocks g)) t ≡ true
is_free-end t g w = rw (any-index 0 (length (t.blocks g)) (t.blocks g) (w.packed g) (omega arith))

find_block-absent : (k : ℕ) (bs : List Block) → All (IsOther k) bs → find_block k bs ≡ none
find_block-absent k [] h = refl
find_block-absent k (b ∷ r) h = ground (arith, find_block-absent k r h.1)

find_block-last :
    (bs : List Block) (b : Block)
    → All (IsOther b.data_id) bs
    → find_block b.data_id (bs ++ b ∷ []) ≡ some b
find_block-last [] b h = rw (==_refl b.data_id)
find_block-last (e ∷ r) b h = ground (arith, find_block-last r b h.1)

pub edit_fits-last :
    (t : Tables) (w : WellFormed t) (g : ℕ) (b : Block)
    → last (t.blocks g) ≡ b ∷ []
    → (size : Bytes → ℕ) → size b.bytes ≤ 4096
    → edit_fits t b.data_id size ≡ true
edit_fits-last t w g b e size le = edit_fits_all t b.data_id size at
  where
    here : find_block b.data_id (t.blocks g) ≡ some b
    here =
        ap (find_block b.data_id) (split_last t w g b e)
        ∙ find_block-last (front (t.blocks g)) b
            (Distinct-others (front (t.blocks g)) b (Distinct-split t w g b e))

    at : (h : ℕ) → is_over t b.data_id size h ≡ false
    at h = elim (ℕ_discrete h g) [
      | yes same ↦ rw (same, here) (ground arith)
      | no ne ↦ rw (find_block-absent b.data_id (t.blocks h) (absent_elsewhere t w g b e h ne))
    ]
