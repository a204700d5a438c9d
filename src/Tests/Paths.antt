-- ===== src/Tests/Paths.antt =====
-- The string and path functions on examples.
use myfs.Base.{true, ◌↔◌, ◌≡◌, refl, [], ◌∷◌}
use myfs.Text.Suffix.{str_ends_with}
use myfs.Text.Suffix.Meaning.{IsSuffix, str_ends_with_lem}
use myfs.Text.Path.{basename, dirname, tokens}

basename_nested : basename (b'/' ∷ b'a' ∷ b'/' ∷ b'b' ∷ b'c' ∷ []) ≡ (b'b' ∷ b'c' ∷ [])
unfolding basename
basename_nested = refl

dirname_nested : dirname (b'/' ∷ b'a' ∷ b'/' ∷ b'b' ∷ b'c' ∷ b'/' ∷ []) ≡ (b'/' ∷ b'a' ∷ [])
unfolding dirname
dirname_nested = refl

dirname_root : dirname (b'/' ∷ b'a' ∷ []) ≡ (b'/' ∷ [])
unfolding dirname
dirname_root = refl

tokens_nested :
    tokens (b'a' ∷ b'/' ∷ b'/' ∷ b'b' ∷ b'c' ∷ b'/' ∷ []) ≡ (b'a' ∷ []) ∷ (b'b' ∷ b'c' ∷ []) ∷ []
unfolding tokens
tokens_nested = refl

str_ends_with_lem_example :
    (str_ends_with (b'a' ∷ b'/' ∷ []) (b'/' ∷ []) ≡ true) ↔ IsSuffix (b'/' ∷ []) (b'a' ∷ b'/' ∷ [])
str_ends_with_lem_example = str_ends_with_lem (b'a' ∷ b'/' ∷ []) (b'/' ∷ [])
