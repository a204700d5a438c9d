-- ===== src/Sql/Tables.antt =====
-- The tables of a MyFS database (the CREATE TABLE statements of src/myfs/create.c), and what each
-- statement means on them by MariaDB's documentation. This is the yardstick of `Sql.Laws`, which
-- states it of a connection as a hypothesis; no definition that models the program uses it.
use myfs.Base.{
  ℕ, zero, suc, ◌+◌, ◌-◌, ◌≡◌, Bool, true, false, not, ◌&&◌, ◌||◌, Option, none, some, List, [],
  ◌∷◌, ◌++◌, map, Bytes, ltb, leb, ◌==◌, if◌then◌else◌, length, take, drop, replicate,
}
use myfs.Sql.{
  Statement, start_transaction, commit, rollback, insert_file, delete_file, write_block,
  concat_block, pad_block, blank_block, delete_block, insert_block, insert_blank, add_size,
  set_size, set_times, set_owner, set_mode, set_parent, set_place, FileRow, BlockHead, DataRow,
  Select, blocks_from, last_block, last_block_size, block_data, file_size, file_row, children_of,
  file_named, count_files, space_used, Row,
}

-- A row of `file_data`, under its file.
pub record Block : Type 0 where
  pub data_id : ℕ
  pub index : ℕ
  pub bytes : Bytes

-- `files` by name; the rows of `file_data` by file, each by its index.
pub record Tables : Type 0 where
  pub files : List FileRow
  pub blocks : ℕ → List Block
  -- the AUTO_INCREMENT counters, or numbers below them: no row that is added gets a lesser number
  pub next_file : ℕ
  pub next_block : ℕ

-- How the columns' collation compares names, and their character set.
pub record Collation : Type 0 where
  pub same : Bytes → Bytes → Bool
  pub before : Bytes → Bytes → Bool
  pub same_self : (a : Bytes) → same a a ≡ true
  -- the characters of a string, `none` where it is not one of the columns' character set
  pub chars : Bytes → Option ℕ

-- VARBINARY(MYFS_FILE_BLOCK_SIZE)
abbrev pub data_max : ℕ
data_max = 4096

abbrev pub space : ℕ
space = b' '

abbrev pub filter {ℓ} : {A : Type ℓ} → (A → Bool) → List A → List A
filter p [] = []
filter p (x ∷ xs) = if p x then x ∷ filter p xs else filter p xs

abbrev pub any {ℓ} : {A : Type ℓ} → (A → Bool) → List A → Bool
any p [] = false
any p (x ∷ xs) = p x || any p xs

abbrev pub last {ℓ} : {A : Type ℓ} → List A → List A
last [] = []
last (x ∷ []) = x ∷ []
last (x ∷ y ∷ r) = last (y ∷ r)

-- Blocks

abbrev pub edit_block : ℕ → (Bytes → Bytes) → List Block → List Block
edit_block k f [] = []
edit_block k f (b ∷ r) =
    (if b.data_id == k then record b { bytes = f b.bytes } else b) ∷ edit_block k f r

abbrev pub drop_block : ℕ → List Block → List Block
drop_block k [] = []
drop_block k (b ∷ r) = if b.data_id == k then drop_block k r else b ∷ drop_block k r

abbrev pub place_block : Block → List Block → List Block
place_block b [] = b ∷ []
place_block b (c ∷ r) = if ltb b.index c.index then b ∷ c ∷ r else c ∷ place_block b r

abbrev pub find_block : ℕ → List Block → Option Block
find_block k [] = none
find_block k (b ∷ r) = if b.data_id == k then some b else find_block k r

-- INSERT(old, pos, n, new): the n bytes from pos, or those up to the end, are replaced; where pos
-- does not lie in 1 … LENGTH(old) + 1 it is the old string.
abbrev pub splice : ℕ → ℕ → Bytes → Bytes → Bytes
splice pos n new old =
    if ltb 0 pos && leb pos (length old + 1)
    then take (pos - 1) old ++ (new ++ drop (pos - 1 + n) old)
    else old

-- The row that a statement changes, and how.
abbrev pub with_blocks : Tables → (List Block → List Block) → Tables
with_blocks t f = record t { blocks = λ g. f (t.blocks g) }

abbrev pub add_block : ℕ → ℕ → Bytes → Tables → Tables
add_block g i bytes t = record t {
  blocks = λ h.
      if h == g
      then place_block (record { data_id = t.next_block; index = i; bytes = bytes }) (t.blocks h)
      else t.blocks h;
  next_block = t.next_block + 1;
}

-- Files

abbrev pub edit_file : ℕ → (FileRow → FileRow) → List FileRow → List FileRow
edit_file k f [] = []
edit_file k f (r ∷ rs) = (if r.file_id == k then f r else r) ∷ edit_file k f rs

abbrev pub find_file : ℕ → List FileRow → List FileRow
find_file k = filter (λ r. r.file_id == k)

-- The row's parent is `k`, or one whose parent is, and so on for `n` rounds.
abbrev pub descends : ℕ → List FileRow → ℕ → ℕ → Bool
descends zero rs k g = g == k
descends (suc n) rs k g = g == k || any (λ r. r.file_id == g && descends n rs k r.parent_id) rs

module _ (c : Collation) where
  abbrev pub place_file : FileRow → List FileRow → List FileRow
  place_file r [] = r ∷ []
  place_file r (q ∷ qs) = if c.before r.name q.name then r ∷ q ∷ qs else q ∷ place_file r qs

  -- UNIQUE KEY (`parent_id`, `name`), against the rows other than `k`
  abbrev pub is_taken : ℕ → Bytes → List FileRow → Bool
  is_taken p name = any (λ r. r.parent_id == p && c.same r.name name)

  abbrev pub move_file : ℕ → (FileRow → FileRow) → List FileRow → List FileRow
  move_file k f rs = elim (find_file k rs) [
    | [] ↦ rs
    | r ∷ _ ↦ place_file (f r) (filter (λ q. not (q.file_id == k)) rs)
  ]

abbrev pub others : ℕ → List FileRow → List FileRow
others k = filter (λ q. not (q.file_id == k))

abbrev pub or_else : Option Bytes → Bytes → Bytes
or_else none old = old
or_else (some new) old = new

-- The counter that the statement takes its number from, after numbers that are given to no row.
abbrev pub skipped : Statement → ℕ → Tables → Tables
skipped (insert_file p name type user group mode) n t = record t { next_file = t.next_file + n }
skipped (insert_block g i bytes) n t = record t { next_block = t.next_block + n }
skipped (insert_blank g i m) n t = record t { next_block = t.next_block + n }
skipped st n t = t

-- The effect of a statement that succeeds, at server time `now`. The statements of a transaction's
-- bounds do not change the tables, but ROLLBACK, which `Sql.Laws` states.
module _ (c : Collation) where
  unfoldable pub effect : ℕ → Statement → Tables → Tables
  effect now start_transaction t = t
  effect now commit t = t
  effect now rollback t = t
  effect now (insert_file p name type user group mode) t = record t {
    files =
        place_file c
          (record {
            file_id = t.next_file;
            name = name;
            parent_id = p;
            type = type;
            user = user;
            group = group;
            mode = mode;
            size = 0;
            last_accessed_on = now;
            last_modified_on = now;
            last_status_changed_on = now;
          })
          t.files;
    next_file = t.next_file + 1;
  }
  effect now (delete_file k) t = record t {
    files = filter (λ r. not (descends (length t.files) t.files k r.file_id)) t.files;
    blocks = λ g. if descends (length t.files) t.files k g then [] else t.blocks g;
  }
  effect now (write_block k pos n bytes) t = with_blocks t (edit_block k (splice pos n bytes))
  effect now (concat_block k bytes) t = with_blocks t (edit_block k (λ old. old ++ bytes))
  effect now (pad_block k n) t = with_blocks t (edit_block k (λ old. old ++ replicate n space))
  effect now (blank_block k n) t = with_blocks t (edit_block k (λ old. replicate n space))
  effect now (delete_block k) t = with_blocks t (drop_block k)
  effect now (insert_block g i bytes) t = add_block g i bytes t
  effect now (insert_blank g i n) t = add_block g i (replicate n space) t
  effect now (add_size g n) t = record t {
    files = edit_file g (λ r. record r { size = r.size + n }) t.files;
  }
  effect now (set_size g n) t = record t {
    files = edit_file g (λ r. record r { size = n }) t.files;
  }
  effect now (set_times g a m) t = record t {
    files = edit_file g (λ r. record r { last_accessed_on = a; last_modified_on = m }) t.files;
  }
  effect now (set_owner g user group) t = record t {
    files =
        edit_file g (λ r. record r { user = or_else user r.user; group = or_else group r.group })
          t.files;
  }
  effect now (set_mode g mode) t = record t {
    files = edit_file g (λ r. record r { mode = mode }) t.files;
  }
  effect now (set_parent g p) t = record t {
    files = edit_file g (λ r. record r { parent_id = p }) t.files;
  }
  effect now (set_place g p name) t = record t {
    files = move_file c g (λ r. record r { parent_id = p; name = name }) t.files;
  }

abbrev pub head_of : Block → BlockHead
head_of b = record { data_id = b.data_id; index = b.index; len = length b.bytes }

abbrev pub data_of : Block → DataRow
data_of b = record { bytes = b.bytes; len = length b.bytes }

abbrev pub from_index : ℕ → List Block → List Block
from_index i = filter (λ b. leb i b.index)

module _ (c : Collation) where
  -- The rows that a statement returns. What `space_used` returns is the server's matter.
  abbrev pub Answer : (q : Select) → Tables → List (Row q) → Type 0
  Answer (blocks_from g i n) t rows = rows ≡ take n (map head_of (from_index i (t.blocks g)))
  Answer (last_block g) t rows = rows ≡ map head_of (last (t.blocks g))
  Answer (last_block_size g) t rows =
      rows ≡ map (λ b. (b.data_id, length b.bytes)) (last (t.blocks g))
  Answer (block_data g i n) t rows = rows ≡ take n (map data_of (from_index i (t.blocks g)))
  Answer (file_size g) t rows = rows ≡ map (λ r. r.size) (find_file g t.files)
  Answer (file_row g) t rows = rows ≡ find_file g t.files
  Answer (children_of p) t rows =
      rows ≡ map (λ r. r.file_id) (filter (λ r. r.parent_id == p && not (r.file_id == 0)) t.files)
  Answer (file_named p name) t rows =
      rows ≡ map (λ r. r.file_id) (filter (λ r. r.parent_id == p && c.same r.name name) t.files)
  Answer count_files t rows = rows ≡ length t.files ∷ []
  Answer (space_used d) t rows = Unit
