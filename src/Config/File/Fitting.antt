-- ===== src/Config/File/Fitting.antt =====
-- A test of what can be written into a configuration file, line by line.
use myfs.Base.{
  ℕ, ◌+◌, ◌≤◌, ◌<◌, ◌≡◌, refl, inl, inr, Bool, true, false, not, ◌&&◌, Bool-cases, List, [], ◌∷◌,
  Bytes, ltb, ◌==◌, length, All, arith,
}
use myfs.Config.Number.{ℤ, pos, negsuc, digits, print_int, isspace}
use myfs.Config.Number.RoundTrip.{IsDigit, digits-IsDigit, digits-pos, digits-length}
use myfs.Config.Line.Trim.{IsWithout, IsRightTrimmed}
use myfs.Config.File.Items.{Item, comment, blank, unset, setting, Fits, IsKey, IsValue}

-- Whether every byte is other than `b`.
unfoldable pub lacks : ℕ → Bytes → Bool
lacks b [] = true
lacks b (c ∷ s) = not (c == b) && lacks b s

-- Whether the last byte is no space, where `a` stands before `s`.
unfoldable pub ends_plain : ℕ → Bytes → Bool
unfolding isspace
ends_plain a [] = not (isspace a)
ends_plain a (b ∷ s) = ends_plain b s

unfoldable pub is_value : Bytes → Bool
unfolding isspace ends_plain lacks
is_value [] = false
is_value (a ∷ s) = not (isspace a) && (ends_plain a s && (lacks b'\n' (a ∷ s) && lacks 0 (a ∷ s)))

unfoldable pub is_key : Bytes → Bool
unfolding is_value lacks
is_key s = is_value s && (lacks b'=' s && (lacks b'#' s && ltb (length s) 30))

-- The bytes of the value, and the length that leaves room for every key.
unfoldable pub is_answer : Bytes → Bool
unfolding is_value
is_answer s = is_value s && ltb (length s) 470

unfoldable pub fits : Item → Bool
unfolding lacks is_key is_answer
fits (comment text) = lacks b'\n' text && (lacks 0 text && ltb (length text) 510)
fits blank = true
fits (unset key) = is_key key
fits (setting key value) = is_key key && is_answer value

unfoldable pub fits_all : List Item → Bool
unfolding fits
fits_all [] = true
fits_all (item ∷ items) = fits item && fits_all items

both : (a b : Bool) → (a && b) ≡ true → (a ≡ true) × (b ≡ true)
both true b h = (refl, h)
both false b h = cc

lacks-IsWithout : (b : ℕ) (s : Bytes) → lacks b s ≡ true → IsWithout b s
unfolding lacks
lacks-IsWithout b [] h = tt
lacks-IsWithout b (c ∷ s) h = elim (Bool-cases (c == b)) [
  | inl same ↦ cc (rw (same, lacks) at h)
  | inr differs ↦ (differs, lacks-IsWithout b s (rw (differs, lacks) at h))
]

plain : (a : ℕ) → not (isspace a) ≡ true → isspace a ≡ false
plain a h = elim (Bool-cases (isspace a)) [ inl space ↦ cc (rw space at h) | inr other ↦ other ]

ends_plain-IsRightTrimmed : (a : ℕ) (s : Bytes) → ends_plain a s ≡ true → IsRightTrimmed (a ∷ s)
unfolding ends_plain
ends_plain-IsRightTrimmed a [] h = plain a h
ends_plain-IsRightTrimmed a (b ∷ s) h = ends_plain-IsRightTrimmed b s h

is_value-IsValue : (s : Bytes) → is_value s ≡ true → IsValue s
unfolding is_value
is_value-IsValue [] h = cc
is_value-IsValue (a ∷ s) h =
    let front = both _ _ h in
    let back = both _ _ front.1 in
    let bytes = both _ _ back.1 in
    record {
      left = plain a front.0;
      right = ends_plain-IsRightTrimmed a s back.0;
      text = (lacks-IsWithout b'\n' (a ∷ s) bytes.0, lacks-IsWithout 0 (a ∷ s) bytes.1);
    }

is_key-IsKey : (s : Bytes) → is_key s ≡ true → IsKey s × (length s < 30)
unfolding is_key
is_key-IsKey s h =
    let value = both _ _ h in
    let sign = both _ _ value.1 in
    let rest = both _ _ sign.1 in
    (
      record {
        value = is_value-IsValue s value.0;
        no_sign = lacks-IsWithout b'=' s sign.0;
        no_comment = lacks-IsWithout b'#' s rest.0;
      },
      ground (arith, rest.1),
    )

fits-Fits : (item : Item) → fits item ≡ true → Fits item
unfolding fits is_answer
fits-Fits (comment text) h =
    let line = both _ _ h in
    let end = both _ _ line.1 in
    ((lacks-IsWithout b'\n' text line.0, lacks-IsWithout 0 text end.0), ground (arith, end.1))
fits-Fits blank h = tt
fits-Fits (unset key) h = let k = is_key-IsKey key h in (k.0, omega (arith, k.1))
fits-Fits (setting key value) h =
    let pair = both _ _ h in
    let k = is_key-IsKey key pair.0 in
    let v = both _ _ pair.1 in (k.0, is_value-IsValue value v.0, ground (arith, k.1, v.1))

-- The test of a file tells that each of its lines fits.
pub fits_all-Fits : (items : List Item) → fits_all items ≡ true → All Fits items
unfolding fits_all
fits_all-Fits [] h = tt
fits_all-Fits (item ∷ items) h =
    let each = both _ _ h in (fits-Fits item each.0, fits_all-Fits items each.1)

-- Digits, after what may be a sign.
digits_lack : (b : ℕ) (s : Bytes) → b < b'0' → All IsDigit s → lacks b s ≡ true
unfolding lacks
digits_lack b [] low d = refl
digits_lack b (c ∷ s) low d = ground (arith, digits_lack b s low d.1)

digits_end : (a : ℕ) (s : Bytes) → isspace a ≡ false → All IsDigit s → ends_plain a s ≡ true
unfolding ends_plain isspace
digits_end a [] h d = rw h refl
digits_end a (b ∷ s) h d = digits_end b s (ground arith) d.1

word :
    (a : ℕ) (s : Bytes)
    → isspace a ≡ false
    → (a == 0) ≡ false
    → All IsDigit s
    → is_value (a ∷ s) ≡ true
unfolding is_value lacks isspace
word a s other nonzero d = ground (
  arith,
  digits_lack b'\n' s (omega arith) d,
  digits_lack 0 s (omega arith) d,
  digits_end a s other d,
)

digits_are_value : (s : Bytes) → 0 < length s → All IsDigit s → is_value s ≡ true
unfolding isspace
digits_are_value [] h d = absurd (omega arith)
digits_are_value (a ∷ s) h d = word a s (ground arith) (ground arith) d.1

print_int_value : (z : ℤ) → is_value (print_int z) ≡ true
unfolding print_int
print_int_value (pos n) = digits_are_value (digits 10 n) (digits-pos 9 n) (digits-IsDigit 10 n)
print_int_value (negsuc n) =
    word b'-' (digits 10 (n + 1)) (unfold isspace in refl) refl (digits-IsDigit 10 (n + 1))

print_int-length : (z : ℤ) → length (print_int z) ≤ 11
unfolding print_int
print_int-length (pos n) = omega (arith, digits-length 10 n)
print_int-length (negsuc n) = omega (arith, digits-length 10 (n + 1))

pub is_answer-print_int : (z : ℤ) → is_answer (print_int z) ≡ true
unfolding is_answer
is_answer-print_int z = rw (print_int_value z) (ground (arith, print_int-length z))
