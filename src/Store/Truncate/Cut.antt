-- ===== src/Store/Truncate/Cut.antt =====
-- What a truncation of a file by src/myfs/myfs_db.c leaves of its bytes.

use myfs.Base.{
  refl, ltb, true, ℕ, ◌+◌, ◌-◌, ◌*◌, ◌/◌, ◌%◌, ◌≤◌, ◌<◌, ◌≡◌, ap, sym, ◌∙◌, inl, inr, false, ◌++◌,
  Bytes, ◌==◌, Bool-cases, if◌then◌else◌, length, take, length-append, take-ge, take-append_le,
  append-nil, arith,
}
use myfs.Store.Truncate.Blanks.{blanks}

-- The first `n` bytes, but that blanks stand in the block that is cut.
abbrev pub blank_tail : ℕ → Bytes → Bytes
blank_tail n old = take (4096 * (n / 4096)) old ++ blanks (n % 4096)

-- What is left when `left` bytes have been cut off.
abbrev pub cut : ℕ → Bytes → Bytes
cut left old = if left == 0 then old else blank_tail (length old - left) old

module _ (x b : Bytes) (m : ℕ) (aligned : length x ≡ 4096 * m) where
  -- The last block goes as a whole, and the rest is cut from what is before it.
  pub cut-append_whole :
      (left : ℕ)
      → 0 < left
      → length b ≤ left
      → left ≤ length x + length b
      → cut (left - length b) x ≡ cut left (x ++ b)
  cut-append_whole left pos le le' = elim (Bool-cases (left - length b == 0)) [
    | inl all ↦
        let e : left ≡ length b = ground arith in
        let n : length (x ++ b) - left ≡ 4096 * m = omega (arith, length-append x b) in
        let q : (4096 * m) / 4096 ≡ m = omega arith in
        let r : (4096 * m) % 4096 ≡ 0 = omega arith in
        let some_left : (left == 0) ≡ false = ground arith in
        rw (all, some_left, n, q, r)
          (sym (
            append-nil _
            ∙ take-append_le (4096 * m) x b (omega arith)
            ∙ take-ge (4096 * m) x (omega arith)))
    | inr more ↦
        let some_left : (left == 0) ≡ false = ground arith in
        let n : length (x ++ b) - left ≡ length x - (left - length b) =
          omega (arith, length-append x b) in
        rw (more, some_left, n)
          (ap (λ y. y ++ blanks ((length x - (left - length b)) % 4096))
            (sym
              (take-append_le (4096 * ((length x - (left - length b)) / 4096)) x b (omega arith))))
  ]

  -- Blanks take the place of what is kept of the last block.
  pub cut-append_part :
      (left : ℕ)
      → 0 < left
      → left < length b
      → length b ≤ 4096
      → x ++ blanks (length b - left) ≡ cut left (x ++ b)
  cut-append_part left pos less le =
      let some_left : (left == 0) ≡ false = ground arith in
      let n : length (x ++ b) - left ≡ 4096 * m + (length b - left) =
        omega (arith, length-append x b) in
      let q : (4096 * m + (length b - left)) / 4096 ≡ m = omega arith in
      let r : (4096 * m + (length b - left)) % 4096 ≡ length b - left = omega arith in
      rw (some_left, n, q, r)
        (ap (λ y. y ++ blanks (length b - left))
          (sym (take-append_le (4096 * m) x b (omega arith) ∙ take-ge (4096 * m) x (omega arith))))

-- A file of `size` bytes where it held `old`: blanks are added behind it, or it is cut.
abbrev pub resized : ℕ → Bytes → Bytes
resized size old =
    if ltb (length old) size
    then old ++ blanks (size - length old)
    else if size == length old
    then old
    else blank_tail size old

pub cut-resized :
    (size : ℕ) (old : Bytes) → size ≤ length old → cut (length old - size) old ≡ resized size old
cut-resized size old le = elim (Bool-cases (size == length old)) [
  | inl same ↦
      let less : ltb (length old) size ≡ false = ground arith in
      let z : (length old - size == 0) ≡ true = ground arith in rw (same, less, z) refl
  | inr differs ↦
      let less : ltb (length old) size ≡ false = ground arith in
      let some_left : (length old - size == 0) ≡ false = ground arith in
      let n : length old - (length old - size) ≡ size = omega arith in
      rw (differs, less, some_left, n) refl
]
