-- ===== src/Text/Copy.antt =====
-- `strlcpy` of src/common/string.c. The source is its bytes before the terminator; the result is
-- the cells that are written to `dst`, the terminator among them, and the value returned.
use myfs.Base.{ℕ, zero, suc, ◌+◌, ◌-◌, [], ◌∷◌, ◌++◌, Bytes, ◌==◌, if◌then◌else◌, length}

-- The variables after `while (--n != 0)`: the cells written, `n`, and the source from `s` on,
-- which is `none` once the terminator has been read.
pub record Copying : Type 0 where
  pub cells : Bytes
  pub n : ℕ
  pub left : Bytes
  pub past_end : ℕ

-- `past_end` counts the source's bytes up to where `s` has come.
unfoldable pub copy_loop : ℕ → Bytes → Copying
copy_loop zero src = record { cells = []; n = 0; left = src; past_end = 0 }
copy_loop (suc zero) src = record { cells = []; n = 0; left = src; past_end = 0 }
copy_loop (suc (suc n)) [] = record { cells = 0 ∷ []; n = suc n; left = []; past_end = 1 }
copy_loop (suc (suc n)) (c ∷ src) =
    let k = copy_loop (suc n) src in
    record { cells = c ∷ k.cells; n = k.n; left = k.left; past_end = suc k.past_end }

-- If `n` is 0 the copy is terminated where there is room, and the rest of the source is read.
unfoldable pub strlcpy : ℕ → Bytes → Bytes × ℕ
unfolding copy_loop
strlcpy size src =
    let k = copy_loop size src in
    if k.n == 0
    then (
      (if size == 0 then k.cells else k.cells ++ (0 ∷ [])),
      k.past_end + (length k.left + 1) - 1,
    )
    else (k.cells, k.past_end - 1)

-- The string that a buffer holds.
unfoldable pub string_of : Bytes → Bytes
string_of [] = []
string_of (c ∷ cells) = if c == 0 then [] else c ∷ string_of cells
