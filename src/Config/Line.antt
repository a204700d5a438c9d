-- ===== src/Config/Line.antt =====
-- The text of a configuration file: `fgets`, `config_trim` and `strtok_r`.
pub mod Trim
use myfs.Base.{
  ℕ, zero, suc, Bool, true, false, ◌&&◌, Option, none, some, List, [], ◌∷◌, ◌++◌, Bytes, ◌==◌,
  if◌then◌else◌, length,
}
use myfs.Config.Number.{isspace, skip_spaces}

-- What `fgets` reads: at most `n` bytes, up to the end of the line, which is read too.
unfoldable pub first_line : ℕ → Bytes → Bytes
first_line zero file = []
first_line (suc n) [] = []
first_line (suc n) (c ∷ file) = if c == b'\n' then c ∷ [] else c ∷ first_line n file

-- What it leaves.
unfoldable pub after_line : ℕ → Bytes → Bytes
after_line zero file = file
after_line (suc n) [] = []
after_line (suc n) (c ∷ file) = if c == b'\n' then file else after_line n file

-- sizeof(line) - 1
abbrev pub line_max : ℕ
line_max = 511

-- All that the calls of `fgets` read, each at least a byte.
unfoldable pub lines : ℕ → Bytes → List Bytes
unfolding first_line after_line
lines zero file = []
lines (suc fuel) [] = []
lines (suc fuel) (c ∷ file) =
    first_line line_max (c ∷ file) ∷ lines fuel (after_line line_max (c ∷ file))

-- Without the spaces at the end.
unfoldable pub right_trim : Bytes → Bytes
unfolding isspace
right_trim [] = []
right_trim (c ∷ s) = elim (right_trim s) [
  | [] ↦ if isspace c then [] else c ∷ []
  | d ∷ t ↦ c ∷ d ∷ t
]

-- The byte in front stays: `ptr > str`.
unfoldable pub trim_end : Bytes → Bytes
unfolding right_trim
trim_end [] = []
trim_end (c ∷ s) = c ∷ right_trim s

unfoldable pub config_trim : Bytes → Bytes
unfolding skip_spaces trim_end
config_trim s = trim_end (skip_spaces s)

unfoldable pub skip_delims : ℕ → Bytes → Bytes
skip_delims delim [] = []
skip_delims delim (c ∷ s) = if c == delim then skip_delims delim s else c ∷ s

unfoldable pub until : ℕ → Bytes → Bytes
until delim [] = []
until delim (c ∷ s) = if c == delim then [] else c ∷ until delim s

unfoldable pub beyond : ℕ → Bytes → Bytes
beyond delim [] = []
beyond delim (c ∷ s) = if c == delim then s else beyond delim s

token : ℕ → Bytes → Option (Bytes × Bytes)
unfolding until beyond
token delim [] = none
token delim (c ∷ s) = some (until delim (c ∷ s), beyond delim (c ∷ s))

-- strtok_r with one delimiter: the token, and where the next call goes on.
unfoldable pub strtok_r : ℕ → Bytes → Option (Bytes × Bytes)
unfolding skip_delims token
strtok_r delim s = token delim (skip_delims delim s)
