-- ===== src/Text/Path.antt =====
-- Paths: POSIX `basename`, `dirname` and `strtok_r` of the C library, and `util_basename` and
-- `util_dirname` of src/myfs/util.c over them.
pub mod Tokens
use mathlib.Core.List.{reverse}
use myfs.Base.{ℕ, Bytes, List, [], ◌∷◌, ◌++◌, ◌==◌, if◌then◌else◌}
use myfs.Text.Copy.{strlcpy, string_of}

abbrev pub slash : ℕ
slash = b'/'

abbrev pub dot : Bytes
dot = b'.' ∷ []

-- The bytes before the first slash.
unfoldable pub before_slash : Bytes → Bytes
before_slash [] = []
before_slash (c ∷ p) = if c == slash then [] else c ∷ before_slash p

-- What remains from the first slash on.
unfoldable pub from_slash : Bytes → Bytes
from_slash [] = []
from_slash (c ∷ p) = if c == slash then c ∷ p else from_slash p

unfoldable pub skip_slashes : Bytes → Bytes
skip_slashes [] = []
skip_slashes (c ∷ p) = if c == slash then skip_slashes p else c ∷ p

abbrev or_dot : Bytes → Bytes
or_dot [] = dot
or_dot (c ∷ p) = slash ∷ []

-- Both work on the path from its end, without the slashes that it ends in; a path of slashes only
-- is `/`, and one with nothing in it `.`.
unfoldable pub basename : Bytes → Bytes
unfolding before_slash skip_slashes
basename path = elim (skip_slashes (reverse path)) [
  | [] ↦ or_dot path
  | c ∷ p ↦ reverse (before_slash (c ∷ p))
]

abbrev dir_of : Bytes → Bytes
dir_of [] = dot
dir_of (c ∷ p) = elim (skip_slashes (c ∷ p)) [ [] ↦ slash ∷ [] | d ∷ q ↦ reverse (d ∷ q) ]

unfoldable pub dirname : Bytes → Bytes
unfolding from_slash skip_slashes
dirname path = elim (skip_slashes (reverse path)) [
  | [] ↦ or_dot path
  | c ∷ p ↦ dir_of (from_slash (c ∷ p))
]

unfoldable pub util_basename : Bytes → ℕ → Bytes
unfolding basename strlcpy string_of
util_basename path size = string_of (strlcpy size (basename path)).0

unfoldable pub util_dirname : Bytes → ℕ → Bytes
unfolding dirname strlcpy string_of
util_dirname path size = string_of (strlcpy size (dirname path)).0

-- `strtok_r(path, "/", &save)` until it returns NULL: the parts between slashes that are not empty.
-- `part` holds the bytes of the part that is being read.
unfoldable pub split_parts : Bytes → Bytes → List Bytes
split_parts [] [] = []
split_parts (c ∷ part) [] = (c ∷ part) ∷ []
split_parts part (c ∷ p) =
    if c == slash then next_part part (split_parts [] p) else split_parts (part ++ (c ∷ [])) p
  where
    next_part : Bytes → List Bytes → List Bytes
    next_part [] rest = rest
    next_part (d ∷ w) rest = (d ∷ w) ∷ rest

unfoldable pub tokens : Bytes → List Bytes
unfolding split_parts
tokens path = split_parts [] path
