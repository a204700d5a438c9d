-- ===== src/Sql/Keys.antt =====
-- What the keys and the column types of the CREATE TABLE statements in src/myfs/create.c demand of
-- a statement.
use myfs.Base.{
  ℕ, ◌+◌, ◌^◌, Bool, true, false, not, ◌&&◌, ◌||◌, Option, none, some, Bytes, ltb, leb, ◌==◌,
  length, codes, same_text,
}
use myfs.Sql.{
  Statement, insert_file, delete_file, write_block, concat_block, pad_block, blank_block,
  insert_block, insert_blank, set_owner, set_mode, set_parent, set_place,
}
use myfs.Sql.Tables.{Block, Tables, Collation, data_max, any, find_block, splice, is_taken, others}

abbrev over_of : (Bytes → ℕ) → Option Block → Bool
over_of size none = false
over_of size (some b) = ltb data_max (size b.bytes)

-- The row `k` among those of file `g` would get too long.
abbrev pub is_over : Tables → ℕ → (Bytes → ℕ) → ℕ → Bool
is_over t k size g = over_of size (find_block k (t.blocks g))

-- Every block belongs to a file.
abbrev pub edit_fits : Tables → ℕ → (Bytes → ℕ) → Bool
edit_fits t k size = not (any (λ r. is_over t k size r.file_id) t.files)

abbrev pub has_file : ℕ → Tables → Bool
has_file g t = any (λ r. r.file_id == g) t.files

abbrev pub is_free : ℕ → ℕ → Tables → Bool
is_free g i t = not (any (λ b. b.index == i) (t.blocks g))

-- varchar(MYFS_FILE_NAME_MAX_LEN)
abbrev pub name_max : ℕ
name_max = 64

-- varchar(MYFS_USER_NAME_MAX_LEN), varchar(MYFS_GROUP_NAME_MAX_LEN)
abbrev pub owner_max : ℕ
owner_max = 32

abbrev pub at_most_chars : ℕ → Option ℕ → Bool
at_most_chars max none = false
at_most_chars max (some n) = leb n max

-- enum('File','Directory','Soft Link')
abbrev pub is_type : Bytes → Bool
is_type type =
    same_text type (codes "File")
    || same_text type (codes "Directory")
    || same_text type (codes "Soft Link")

module _ (c : Collation) where
  abbrev pub fits : ℕ → Bytes → Bool
  fits max text = at_most_chars max (c.chars text)

  abbrev pub new_fits : Option Bytes → Bool
  new_fits none = true
  new_fits (some text) = fits owner_max text

  -- What the keys and the column types demand of a statement, in the server's strict mode.
  unfoldable pub accepts : Statement → Tables → Bool
  accepts (insert_file p name type user group mode) t =
      has_file p t
      && not (is_taken c p name t.files)
      && fits name_max name
      && is_type type
      && fits owner_max user
      && fits owner_max group
      && ltb t.next_file (2 ^ 32)
      && ltb mode 65536
  accepts (delete_file k) t = not (k == 0)
  accepts (write_block k pos n bytes) t = edit_fits t k (λ old. length (splice pos n bytes old))
  accepts (concat_block k bytes) t = edit_fits t k (λ old. length old + length bytes)
  accepts (pad_block k n) t = edit_fits t k (λ old. length old + n)
  accepts (blank_block k n) t = edit_fits t k (λ old. n)
  accepts (insert_block g i bytes) t = has_file g t && is_free g i t && leb (length bytes) data_max
  accepts (insert_blank g i n) t = has_file g t && is_free g i t && leb n data_max
  accepts (set_owner g user group) t = new_fits user && new_fits group
  accepts (set_mode g mode) t = ltb mode 65536
  accepts (set_parent g p) t =
      has_file p t
      && not (any (λ r. r.file_id == g && is_taken c p r.name (others g t.files)) t.files)
  accepts (set_place g p name) t =
      has_file p t && not (is_taken c p name (others g t.files)) && fits name_max name
  accepts _ t = true
