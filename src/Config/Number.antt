-- ===== src/Config/Number.antt =====
-- The numbers of src/common/config.c in text: `%d` of snprintf, atoi and strtoul of the C library.
pub mod RoundTrip
use myfs.Base.{
  ℕ, zero, suc, ◌+◌, ◌-◌, ◌*◌, ◌/◌, ◌%◌, ◌^◌, Bool, true, false, ◌&&◌, ◌||◌, [], ◌∷◌, ◌++◌, Bytes,
  ltb, leb, ◌==◌, if◌then◌else◌, u32,
}

-- An `int`: `negsuc n` is -(n + 1).
pub data ℤ : Type 0 where
  pos : ℕ → ℤ
  negsuc : ℕ → ℤ

-- The decimal digits, the least one last, for a number that has at most as many as the first argument.
unfoldable pub digits : ℕ → ℕ → Bytes
digits zero n = []
digits (suc f) n =
    let rest = digits f (n / 10) in
    if ltb n 10 then (b'0' + n) ∷ [] else rest ++ (b'0' + n % 10) ∷ []

-- An `int` has at most ten digits.
unfoldable pub print_int : ℤ → Bytes
unfolding digits
print_int (pos n) = digits 10 n
print_int (negsuc n) = b'-' ∷ digits 10 (n + 1)

-- isspace, in the C locale
unfoldable pub isspace : ℕ → Bool
isspace c = c == b' ' || (leb 9 c && leb c 13)

unfoldable pub skip_spaces : Bytes → Bytes
unfolding isspace
skip_spaces [] = []
skip_spaces (c ∷ s) = if isspace c then skip_spaces s else c ∷ s

abbrev pub is_digit : ℕ → Bool
is_digit c = leb b'0' c && leb c b'9'

-- The number that the digits in front stand for, behind those that make `n`.
unfoldable pub read_digits : ℕ → Bytes → ℕ
read_digits n [] = n
read_digits n (c ∷ s) = if is_digit c then read_digits (n * 10 + (c - b'0')) s else n

negated : ℕ → ℤ
negated zero = pos 0
negated (suc n) = negsuc n

signed : Bytes → ℤ
unfolding negated read_digits
signed [] = pos 0
signed (c ∷ s) =
    if c == b'-'
    then negated (read_digits 0 s)
    else if c == b'+'
    then pos (read_digits 0 s)
    else pos (read_digits 0 (c ∷ s))

-- What is beyond an `int` is undefined in C, and is here the number itself.
unfoldable pub atoi : Bytes → ℤ
unfolding skip_spaces signed
atoi s = signed (skip_spaces s)

-- strtoul(s, NULL, 10) of 64 bits: the largest number where it overflows; a sign negates it.
abbrev cap64 : ℕ → ℕ
cap64 n = if ltb n (2 ^ 64) then n else 2 ^ 64 - 1

unsigned : Bytes → ℕ
unfolding read_digits
unsigned [] = 0
unsigned (c ∷ s) =
    if c == b'-'
    then (if ltb (read_digits 0 s) (2 ^ 64)
        then (2 ^ 64 - read_digits 0 s) % 2 ^ 64
        else 2 ^ 64 - 1)
    else if c == b'+'
    then cap64 (read_digits 0 s)
    else cap64 (read_digits 0 (c ∷ s))

-- strtoul(s, NULL, 10), in an `unsigned int`
unfoldable pub strtoul32 : Bytes → ℕ
unfolding skip_spaces unsigned
strtoul32 s = u32 (unsigned (skip_spaces s))
