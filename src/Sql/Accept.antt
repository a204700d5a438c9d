-- ===== src/Sql/Accept.antt =====
-- When the statements on blocks are allowed.
use myfs.Base.{ℕ, ◌+◌, ◌≤◌, ◌≡◌, refl, Bool, true, false, List, [], ◌∷◌, Bytes, ◌==◌, length, arith}
use myfs.Sql.{FileRow, insert_block, insert_blank}
use myfs.Sql.Tables.{Tables, Collation, any, edit_file}
use myfs.Sql.Keys.{accepts, is_over, has_file, is_free, edit_fits}

pub has_file-edit_file :
    (g k : ℕ) (n : ℕ) (fs : List FileRow)
    → any (λ r. r.file_id == g) (edit_file k (λ r. record r { size = r.size + n }) fs)
      ≡ any (λ r. r.file_id == g) fs
has_file-edit_file g k n [] = refl
has_file-edit_file g k n (r ∷ rs) = ground (arith, has_file-edit_file g k n rs)

any-false :
    (p : FileRow → Bool) (fs : List FileRow) → ((r : FileRow) → p r ≡ false) → any p fs ≡ false
any-false p [] h = refl
any-false p (r ∷ rs) h = ground (arith, h r, any-false p rs h)

-- A statement that changes a row is allowed if no row of that number gets too long.
pub edit_fits_all :
    (t : Tables) (k : ℕ) (size : Bytes → ℕ)
    → ((g : ℕ) → is_over t k size g ≡ false)
    → edit_fits t k size ≡ true
edit_fits_all t k size h =
    ground (arith, any-false (λ r. is_over t k size r.file_id) t.files (λ r. h r.file_id))

module _ (c : Collation) (g i : ℕ) (t : Tables) (there : has_file g t ≡ true)
    (free : is_free g i t ≡ true) where
  pub accepts-insert_block :
      (bytes : Bytes) → length bytes ≤ 4096 → accepts c (insert_block g i bytes) t ≡ true
  unfolding accepts
  accepts-insert_block bytes h = ground arith

  pub accepts-insert_blank : (n : ℕ) → n ≤ 4096 → accepts c (insert_blank g i n) t ≡ true
  unfolding accepts
  accepts-insert_blank n h = ground arith
