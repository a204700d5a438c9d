-- ===== src/Config/Line/Trim.antt =====
-- Lines of a configuration file, and what trimming and splitting make of them.
use myfs.Base.{
  ℕ, zero, suc, ◌<◌, ◌≡◌, refl, ap, ◌∙◌, true, false, some, [], ◌∷◌, ◌++◌, Bytes, ◌==◌, ==_refl,
  length, All, arith,
}
use myfs.Text.Copy.{string_of}
use myfs.Config.Number.{isspace, skip_spaces}
use myfs.Config.Line.{
  first_line, after_line, lines, right_trim, config_trim, skip_delims, until, beyond, strtok_r,
  line_max,
}

-- None of the bytes is `b`.
abbrev pub IsWithout : ℕ → Bytes → Type 0
IsWithout b = All (λ c. (c == b) ≡ false)

-- The first byte is there and is no space; likewise the last.
abbrev pub IsLeftTrimmed : Bytes → Type 0
IsLeftTrimmed [] = ⊥
IsLeftTrimmed (c ∷ s) = isspace c ≡ false

abbrev pub IsRightTrimmed : Bytes → Type 0
IsRightTrimmed [] = ⊥
IsRightTrimmed (c ∷ []) = isspace c ≡ false
IsRightTrimmed (c ∷ d ∷ s) = IsRightTrimmed (d ∷ s)

pub first_line-append :
    (n : ℕ) (l rest : Bytes)
    → IsWithout b'\n' l
    → length l < n
    → (first_line n (l ++ b'\n' ∷ rest) ≡ l ++ b'\n' ∷ [])
      × (after_line n (l ++ b'\n' ∷ rest) ≡ rest)
unfolding first_line after_line
first_line-append zero l rest h lt = absurd (omega arith)
first_line-append (suc n) [] rest h lt = (refl, refl)
first_line-append (suc n) (c ∷ l) rest (plain, h) lt =
    let (a, b) = first_line-append n l rest h (omega arith) in
    (rw (plain, first_line) (ap (λ x. c ∷ x) a), rw (plain, after_line) b)

pub lines-append :
    (fuel : ℕ) (l rest : Bytes)
    → IsWithout b'\n' l
    → length l < line_max
    → lines (suc fuel) (l ++ b'\n' ∷ rest) ≡ (l ++ b'\n' ∷ []) ∷ lines fuel rest
unfolding lines
lines-append fuel [] rest h lt = refl
lines-append fuel (c ∷ l) rest h lt =
    let (a, b) = first_line-append line_max (c ∷ l) rest h lt in
    ap (λ x. x ∷ lines fuel (after_line line_max (c ∷ l ++ b'\n' ∷ rest))) a
    ∙ ap (λ x. (c ∷ l ++ b'\n' ∷ []) ∷ lines fuel x) b

pub string_of-append : (l : Bytes) → IsWithout 0 l → string_of (l ++ b'\n' ∷ []) ≡ l ++ b'\n' ∷ []
unfolding string_of
string_of-append [] h = refl
string_of-append (c ∷ l) (plain, h) = rw (plain, string_of) (ap (λ x. c ∷ x) (string_of-append l h))

-- One space at the end is taken off.
pub right_trim-append :
    (l : Bytes) (c : ℕ) → IsRightTrimmed l → isspace c ≡ true → right_trim (l ++ c ∷ []) ≡ l
unfolding right_trim
right_trim-append [] c h space = absurd h
right_trim-append (a ∷ []) c h space = rw (space, right_trim, h) refl
right_trim-append (a ∷ b ∷ l) c h space = rw (right_trim-append (b ∷ l) c h space) refl

pub right_trim_lem : (l : Bytes) → IsRightTrimmed l → right_trim l ≡ l
unfolding right_trim
right_trim_lem [] h = refl
right_trim_lem (a ∷ []) h = rw (h, right_trim) refl
right_trim_lem (a ∷ b ∷ l) h = rw (right_trim_lem (b ∷ l) h) refl

pub trimmed_front : (a : ℕ) (s : Bytes) → isspace a ≡ false → config_trim (a ∷ s) ≡ a ∷ right_trim s
unfolding config_trim
trimmed_front a s h = rw (h, skip_spaces) refl

pub config_trim-append :
    (l : Bytes) (c : ℕ)
    → IsLeftTrimmed l
    → IsRightTrimmed l
    → isspace c ≡ true
    → config_trim (l ++ c ∷ []) ≡ l
unfolding config_trim
config_trim-append [] c h h' space = absurd h
config_trim-append (a ∷ []) c h h' space =
    trimmed_front a (c ∷ []) h ∙ ap (λ x. a ∷ x) (rw (right_trim, space) refl)
config_trim-append (a ∷ b ∷ l) c h h' space =
    trimmed_front a (b ∷ l ++ c ∷ []) h ∙ ap (λ x. a ∷ x) (right_trim-append (b ∷ l) c h' space)

pub config_trim_lem : (l : Bytes) → IsLeftTrimmed l → IsRightTrimmed l → config_trim l ≡ l
unfolding config_trim
config_trim_lem [] h h' = refl
config_trim_lem (a ∷ []) h h' = trimmed_front a [] h
config_trim_lem (a ∷ b ∷ l) h h' =
    trimmed_front a (b ∷ l) h ∙ ap (λ x. a ∷ x) (right_trim_lem (b ∷ l) h')

-- One space in front is taken off.
pub config_trim-cons :
    (l : Bytes) (c : ℕ)
    → IsLeftTrimmed l
    → IsRightTrimmed l
    → isspace c ≡ true
    → config_trim (c ∷ l) ≡ l
unfolding config_trim
config_trim-cons l c h h' space = rw (space, skip_spaces) (config_trim_lem l h h')

pub IsRightTrimmed-append : (x l : Bytes) → IsRightTrimmed l → IsRightTrimmed (x ++ l)
IsRightTrimmed-append [] l h = h
IsRightTrimmed-append (a ∷ []) [] h = absurd h
IsRightTrimmed-append (a ∷ []) (b ∷ l) h = h
IsRightTrimmed-append (a ∷ b ∷ x) l h = IsRightTrimmed-append (b ∷ x) l h

pub IsLeftTrimmed-append : (x l : Bytes) → IsLeftTrimmed x → IsLeftTrimmed (x ++ l)
IsLeftTrimmed-append [] l h = absurd h
IsLeftTrimmed-append (a ∷ x) l h = h

-- The delimiter `d` after a token that has none, and one at the end.
pub until-append :
    (d : ℕ) (x rest : Bytes)
    → IsWithout d x
    → (until d (x ++ d ∷ rest) ≡ x) × (beyond d (x ++ d ∷ rest) ≡ rest)
unfolding until beyond
until-append d [] rest h = (rw (==_refl d, until) refl, rw (==_refl d, beyond) refl)
until-append d (a ∷ x) rest (plain, h) =
    let (p, q) = until-append d x rest h in
    (rw (plain, until) (ap (λ y. a ∷ y) p), rw (plain, beyond) q)

pub until_lem : (d : ℕ) (x : Bytes) → IsWithout d x → (until d x ≡ x) × (beyond d x ≡ [])
unfolding until beyond
until_lem d [] h = (refl, refl)
until_lem d (a ∷ x) (plain, h) =
    let (p, q) = until_lem d x h in (rw (plain, until) (ap (λ y. a ∷ y) p), rw (plain, beyond) q)

pub strtok_r-append :
    (d a : ℕ) (x rest : Bytes)
    → IsWithout d (a ∷ x)
    → strtok_r d (a ∷ x ++ d ∷ rest) ≡ some (a ∷ x, rest)
unfolding strtok_r
strtok_r-append d a x rest h =
    let (p, q) = until-append d (a ∷ x) rest h in
    let front : skip_delims d (a ∷ x ++ d ∷ rest) ≡ a ∷ x ++ d ∷ rest =
      rw (h.0, skip_delims) refl in
    rw front (λ i. some (p i, q i))

pub strtok_r_lem :
    (d a : ℕ) (x : Bytes) → IsWithout d (a ∷ x) → strtok_r d (a ∷ x) ≡ some (a ∷ x, [])
unfolding strtok_r
strtok_r_lem d a x h =
    let (p, q) = until_lem d (a ∷ x) h in
    let front : skip_delims d (a ∷ x) ≡ a ∷ x = rw (h.0, skip_delims) refl in
    rw front (λ i. some (p i, q i))
