-- ===== src/Store/Content/Edit.antt =====
-- Updates and deletions of a row by its `file_data_id`, on a list in which it stands last, or not
-- at all.
use myfs.Base.{
  ℕ, ◌≡◌, ◌≢◌, refl, ap, List, [], ◌∷◌, ◌++◌, Bytes, All, All-last, All-front, All-snoc, All-map,
  sym, ◌∙◌, arith,
}
use myfs.Sql.Tables.{Block, edit_block, drop_block}
use myfs.Store.Content.{IsOther, Distinct, IsOwned}

pub edit_block-absent :
    (k : ℕ) (f : Bytes → Bytes) (bs : List Block) → All (IsOther k) bs → edit_block k f bs ≡ bs
edit_block-absent k f [] h = refl
edit_block-absent k f (b ∷ r) h = ground (arith, edit_block-absent k f r h.1)

pub drop_block-absent : (k : ℕ) (bs : List Block) → All (IsOther k) bs → drop_block k bs ≡ bs
drop_block-absent k [] h = refl
drop_block-absent k (b ∷ r) h = ground (arith, drop_block-absent k r h.1)

pub edit_block-last :
    (f : Bytes → Bytes) (bs : List Block) (b : Block)
    → Distinct (bs ++ b ∷ [])
    → edit_block b.data_id f (bs ++ b ∷ []) ≡ bs ++ record b { bytes = f b.bytes } ∷ []
edit_block-last f [] b h = ground arith
edit_block-last f (c ∷ r) b h =
    ground (arith, All-last (IsOther c.data_id) r b h.0, edit_block-last f r b h.1)

pub drop_block-last :
    (bs : List Block) (b : Block)
    → Distinct (bs ++ b ∷ [])
    → drop_block b.data_id (bs ++ b ∷ []) ≡ bs
drop_block-last [] b h = ground arith
drop_block-last (c ∷ r) b h =
    ground (arith, All-last (IsOther c.data_id) r b h.0, drop_block-last r b h.1)

-- A row with an identifier that no other row has may follow.
pub Distinct-snoc :
    (bs : List Block) (b : Block)
    → Distinct bs
    → All (IsOther b.data_id) bs
    → Distinct (bs ++ b ∷ [])
Distinct-snoc [] b h o = (tt, tt)
Distinct-snoc (c ∷ r) b h o =
    (All-snoc (IsOther c.data_id) r b h.0 (λ e. o.0 (sym e)), Distinct-snoc r b h.1 o.1)

pub Distinct-front : (bs : List Block) (b : Block) → Distinct (bs ++ b ∷ []) → Distinct bs
Distinct-front [] b h = tt
Distinct-front (c ∷ r) b h = (All-front (IsOther c.data_id) r b h.0, Distinct-front r b h.1)

pub Distinct-others :
    (bs : List Block) (b : Block) → Distinct (bs ++ b ∷ []) → All (IsOther b.data_id) bs
Distinct-others [] b h = tt
Distinct-others (c ∷ r) b h =
    ((λ e. All-last (IsOther c.data_id) r b h.0 (sym e)), Distinct-others r b h.1)

-- No row of one file has the identifier of a row of another, nor one not given out yet.
pub IsOwned-IsOther :
    (owner : ℕ → ℕ) (next g h : ℕ) (b : Block) (bs : List Block)
    → g ≢ h
    → owner b.data_id ≡ g
    → All (IsOwned owner next h) bs
    → All (IsOther b.data_id) bs
IsOwned-IsOther owner next g h b bs ne o =
    All-map (IsOwned owner next h) {Q = IsOther b.data_id}
      (λ c w e. ne (sym o ∙ ap owner (sym e) ∙ w.0)) bs

pub IsOwned-new :
    (owner : ℕ → ℕ) (next h : ℕ) (bs : List Block)
    → All (IsOwned owner next h) bs
    → All (IsOther next) bs
IsOwned-new owner next h = All-map (IsOwned owner next h) {Q = IsOther next} (λ c w e. omega arith)
