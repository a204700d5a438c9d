-- ===== src/Text/Suffix.antt =====
-- `str_ends_with` of src/common/string.c.
pub mod Meaning
use myfs.Base.{
  ◌-◌, Bool, false, ◌||◌, Bytes, ltb, ◌==◌, same_text, if◌then◌else◌, length, take, drop,
}

-- strncmp(a, b, n) == 0 at strings of n bytes or more is the equality of their first n bytes.
unfoldable pub str_ends_with : Bytes → Bytes → Bool
str_ends_with str match =
    let str_len = length str in
    let match_len = length match in
    if match_len == 0 || ltb str_len match_len
    then false
    else same_text (take match_len (drop (str_len - match_len) str)) (take match_len match)
