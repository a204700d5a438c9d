-- ===== src/Config/Number/RoundTrip.antt =====
-- The text of an `int` is read back as that number.
use myfs.Base.{
  ℕ, zero, suc, ◌+◌, ◌-◌, ◌*◌, ◌/◌, ◌%◌, ◌≤◌, ◌<◌, ◌≡◌, refl, ap, ◌∙◌, inl, inr, true, Bool-cases,
  [], ◌∷◌, ◌++◌, Bytes, ltb, length, length-append, All, arith,
}
use myfs.Config.Number.{ℤ, pos, negsuc, digits, print_int, is_digit, read_digits, negated, atoi}

-- 10 ^ f
abbrev pub pow10 : ℕ → ℕ
pow10 zero = 1
pow10 (suc f) = 10 * pow10 f

abbrev pub IsDigit : ℕ → Type 0
IsDigit c = is_digit c ≡ true

last-IsDigit : (n : ℕ) → n < 10 → IsDigit (b'0' + n)
last-IsDigit n h = ground arith

All-append : (xs ys : Bytes) → All IsDigit xs → All IsDigit ys → All IsDigit (xs ++ ys)
All-append [] ys h h' = h'
All-append (x ∷ xs) ys h h' = (h.0, All-append xs ys h.1 h')

pub digits-IsDigit : (f n : ℕ) → All IsDigit (digits f n)
unfolding digits
digits-IsDigit zero n = tt
digits-IsDigit (suc f) n = elim (Bool-cases (ltb n 10)) [
  | inl one ↦ rw (digits, one) (last-IsDigit n (ground arith), tt)
  | inr more ↦
      rw (digits, more)
        (All-append (digits f (n / 10)) ((b'0' + n % 10) ∷ []) (digits-IsDigit f (n / 10))
          (last-IsDigit (n % 10) (omega arith), tt))
]

read_digits-append :
    (acc d : ℕ) (xs : Bytes)
    → All IsDigit xs
    → d < 10
    → read_digits acc (xs ++ (b'0' + d) ∷ []) ≡ read_digits acc xs * 10 + d
unfolding read_digits
read_digits-append acc d [] h lt = ground arith
read_digits-append acc d (x ∷ xs) h lt =
    rw (h.0, read_digits) (read_digits-append (acc * 10 + (x - b'0')) d xs h.1 lt)

pub read_digits-digits : (f n : ℕ) → n < pow10 f → read_digits 0 (digits f n) ≡ n
unfolding read_digits digits
read_digits-digits zero n lt = omega arith
read_digits-digits (suc f) n lt = elim (Bool-cases (ltb n 10)) [
  | inl one ↦ rw (digits, one) (ground arith)
  | inr more ↦
      rw (digits, more)
        (read_digits-append 0 (n % 10) (digits f (n / 10)) (digits-IsDigit f (n / 10)) (omega arith)
          ∙ omega (arith, read_digits-digits f (n / 10) (omega arith)))
]

pub digits-pos : (f n : ℕ) → 0 < length (digits (suc f) n)
unfolding digits
digits-pos f n = ground (arith, length-append (digits f (n / 10)) ((b'0' + n % 10) ∷ []))

pub digits-length : (f n : ℕ) → length (digits f n) ≤ f
unfolding digits
digits-length zero n = omega arith
digits-length (suc f) n =
    ground
      (arith, digits-length f (n / 10), length-append (digits f (n / 10)) ((b'0' + n % 10) ∷ []))

-- A text that starts with a digit has no space in front and no sign.
atoi_digits : (s : Bytes) → 0 < length s → All IsDigit s → atoi s ≡ pos (read_digits 0 s)
unfolding atoi
atoi_digits [] h d = absurd (omega arith)
atoi_digits (c ∷ s) h d = ground arith

abbrev pub magnitude : ℤ → ℕ
magnitude (pos n) = n
magnitude (negsuc n) = n + 1

negated_suc : (n : ℕ) → negated (n + 1) ≡ negsuc n
unfolding negated
negated_suc n = let e : n + 1 ≡ suc n = omega arith in rw e refl

-- `atoi` reads back what `%d` prints, for every number of at most ten digits.
pub atoi-print_int : (z : ℤ) → magnitude z < pow10 10 → atoi (print_int z) ≡ z
unfolding print_int atoi
atoi-print_int (pos n) lt =
    atoi_digits (digits 10 n) (digits-pos 9 n) (digits-IsDigit 10 n)
    ∙ ap pos (read_digits-digits 10 n lt)
atoi-print_int (negsuc n) lt = ap negated (read_digits-digits 10 (n + 1) lt) ∙ negated_suc n
