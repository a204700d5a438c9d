-- ===== src/Store/Content.antt =====
-- What the rows of `file_data` say of a file: its content is the data of its blocks in the order of
-- their indexes, and the blocks are packed: numbered from 0, none empty, all full but the last.
pub mod Packed
pub mod Edit
pub mod Steps
pub mod Room
pub mod Fill
pub mod Allowed
pub mod Seek
pub mod Middle
use myfs.Base.{
  ℕ, zero, suc, ◌+◌, ◌≤◌, ◌<◌, ◌≡◌, ◌≢◌, refl, ◌∙◌, List, [], ◌∷◌, ◌++◌, Bytes, length, All,
}
use myfs.Sql.{FileRow}
use myfs.Sql.Tables.{Tables, Block}

abbrev pub content_of : List Block → Bytes
content_of [] = []
content_of (b ∷ r) = b.bytes ++ content_of r

abbrev pub content : Tables → ℕ → Bytes
content t g = content_of (t.blocks g)

-- The blocks of one file, the first with index `i`.
abbrev pub Packed : ℕ → List Block → Type 0
Packed i [] = Unit
Packed i (b ∷ []) = (b.index ≡ i) × (0 < length b.bytes) × (length b.bytes ≤ 4096)
Packed i (b ∷ c ∷ r) = (b.index ≡ i) × (length b.bytes ≡ 4096) × Packed (suc i) (c ∷ r)

abbrev pub IsOther : ℕ → Block → Type 0
IsOther k b = b.data_id ≢ k

abbrev pub Distinct : List Block → Type 0
Distinct [] = Unit
Distinct (b ∷ r) = All (IsOther b.data_id) r × Distinct r

-- A row of file `g`, by the owner of its `file_data_id`, which is one that has been given out.
abbrev pub IsOwned : (ℕ → ℕ) → ℕ → ℕ → Block → Type 0
IsOwned owner next g b = (owner b.data_id ≡ g) × (0 < b.data_id) × (b.data_id < next)

pub record WellFormed (t : Tables) : Type 0 where
  pub next_pos : 0 < t.next_block
  pub owner : ℕ → ℕ
  pub owned : (g : ℕ) → All (IsOwned owner t.next_block g) (t.blocks g)
  pub distinct : (g : ℕ) → Distinct (t.blocks g)
  pub packed : (g : ℕ) → Packed 0 (t.blocks g)

-- Only file `g` has changed, and its content is now `c`.
pub record Changed (t t' : Tables) (g : ℕ) (c : Bytes) : Type 0 where
  pub formed : WellFormed t'
  pub content_is : content t' g ≡ c
  pub others : (h : ℕ) → h ≢ g → t'.blocks h ≡ t.blocks h

pub Changed-trans :
    {t t1 t2 : Tables} {g : ℕ} {c1 c2 : Bytes}
    → Changed t t1 g c1
    → Changed t1 t2 g c2
    → Changed t t2 g c2
Changed-trans x y = record {
  formed = y.formed;
  content_is = y.content_is;
  others = λ h ne. y.others h ne ∙ x.others h ne;
}

pub Changed-refl :
    {t : Tables} (g : ℕ) (c : Bytes) → WellFormed t → content t g ≡ c → Changed t t g c
Changed-refl g c w e = record { formed = w; content_is = e; others = λ h ne. refl }

-- What the rows of `files` hold does not matter to the blocks.
pub WellFormed-files :
    (t : Tables) (fs : List FileRow) → WellFormed t → WellFormed (record t { files = fs })
WellFormed-files t fs w = record {
  next_pos = w.next_pos;
  owner = w.owner;
  owned = w.owned;
  distinct = w.distinct;
  packed = w.packed;
}
