-- ===== src/Store/Truncate/Measured.antt =====
-- The `size` of the rows of a file, against the bytes that its blocks hold.

use myfs.Base.{
  ℕ, ◌≡◌, refl, ap, sym, ◌∙◌, ◌⊎◌, inl, inr, false, List, [], ◌∷◌, ◌==◌, All, Bool-cases, map,
}
use myfs.Sql.{FileRow}
use myfs.Sql.Tables.{edit_file, find_file}

-- A row of another file, or one whose `size` is `n`.
abbrev pub IsMeasured : ℕ → ℕ → FileRow → Type 0
IsMeasured g n r = ((r.file_id == g) ≡ false) ⊎ (r.size ≡ n)

abbrev pub with_size : ℕ → ℕ → List FileRow → List FileRow
with_size g n fs = edit_file g (λ r. record r { size = n }) fs

pub with_size-same : (g n : ℕ) (fs : List FileRow) → All (IsMeasured g n) fs → with_size g n fs ≡ fs
with_size-same g n [] h = refl
with_size-same g n (r ∷ fs) (inl other, h) = rw (other, with_size-same g n fs h) refl
with_size-same g n (r ∷ fs) (inr e, h) = elim (Bool-cases (r.file_id == g)) [
  | inr other ↦ rw (other, with_size-same g n fs h) refl
  | inl this ↦ rw (this, with_size-same g n fs h) (ap (λ k. record r { size = k } ∷ fs) (sym e))
]

pub found-IsMeasured :
    (g n : ℕ) (fs : List FileRow) (current : ℕ) (rows : List ℕ)
    → current ∷ rows ≡ map (λ r. r.size) (find_file g fs)
    → All (IsMeasured g n) fs
    → current ≡ n
found-IsMeasured g n [] current rows e h = cc
found-IsMeasured g n (r ∷ fs) current rows e (inl other, h) =
    found-IsMeasured g n fs current rows (rw other at e) h
found-IsMeasured g n (r ∷ fs) current rows e (inr m, h) = elim (Bool-cases (r.file_id == g)) [
  | inl this ↦ ap (head_or 0) (rw this at e) ∙ m
  | inr other ↦ found-IsMeasured g n fs current rows (rw other at e) h
]
  where
    head_or : ℕ → List ℕ → ℕ
    head_or z [] = z
    head_or z (x ∷ xs) = x
