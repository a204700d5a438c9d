-- ===== src/Store/Kind.antt =====
-- The file types of src/myfs/myfs.h and their names in the database (src/myfs/myfs.c).
use myfs.Base.{◌≡◌, refl, [], ◌∷◌, Bytes, same_text, if◌then◌else◌}

-- `myfs_file_type_t`
pub data FileType : Type 0 where
  invalid regular directory soft_link : FileType

abbrev text_file : Bytes
text_file = b'F' ∷ b'i' ∷ b'l' ∷ b'e' ∷ []

abbrev text_directory : Bytes
text_directory = b'D' ∷ b'i' ∷ b'r' ∷ b'e' ∷ b'c' ∷ b't' ∷ b'o' ∷ b'r' ∷ b'y' ∷ []

abbrev text_soft_link : Bytes
text_soft_link = b'S' ∷ b'o' ∷ b'f' ∷ b't' ∷ b' ' ∷ b'L' ∷ b'i' ∷ b'n' ∷ b'k' ∷ []

abbrev text_invalid : Bytes
text_invalid = b'I' ∷ b'n' ∷ b'v' ∷ b'a' ∷ b'l' ∷ b'i' ∷ b'd' ∷ []

unfoldable pub file_type : Bytes → FileType
file_type type =
    if same_text type text_file
    then regular
    else if same_text type text_directory
    then directory
    else if same_text type text_soft_link
    then soft_link
    else invalid

unfoldable pub file_type_str : FileType → Bytes
file_type_str regular = text_file
file_type_str directory = text_directory
file_type_str soft_link = text_soft_link
file_type_str invalid = text_invalid

-- The name that a file type is stored under is read back as that type, for each of the four types.
pub file_type-file_type_str : (t : FileType) → file_type (file_type_str t) ≡ t
unfolding file_type file_type_str
file_type-file_type_str invalid = refl
file_type-file_type_str regular = refl
file_type-file_type_str directory = refl
file_type-file_type_str soft_link = refl
