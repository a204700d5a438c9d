-- ===== src/Store/Meta.antt =====
-- The functions of src/myfs/myfs_db.c that change one row of `files`, and the counts of statfs.
pub mod Swap
use Prim.Native.Nat.{bit_and, bit_or}
use myfs.Base.{ℕ, Bool, false, Option, none, some, [], ◌∷◌, Bytes, ◌==◌, if◌then◌else◌, u32}
use myfs.Sql.{
  Sql, start_transaction, insert_file, delete_file, set_times, set_owner, set_mode, set_parent,
  set_place, count_files, space_used,
}
use myfs.Store.Block.{stop}
use myfs.Store.Kind.{FileType, invalid, regular, directory, soft_link, file_type_str}

-- The file type bits of <sys/stat.h>.
abbrev pub s_ifreg : ℕ
s_ifreg = 0o100000

abbrev pub s_ifdir : ℕ
s_ifdir = 0o40000

abbrev pub s_iflnk : ℕ
s_iflnk = 0o120000

-- if (!(mode & bits)) mode |= bits;
unfoldable pub with_bits : ℕ → ℕ → ℕ
with_bits bits mode = if bit_and mode bits == 0 then bit_or mode bits else mode

unfoldable pub create_mode : FileType → ℕ → ℕ
unfolding with_bits
create_mode regular mode = with_bits s_ifreg mode
create_mode directory mode = with_bits s_ifdir mode
create_mode soft_link mode = with_bits s_iflnk mode
create_mode invalid mode = mode

module _ (db : Sql) where
  -- The user and the group are those of the configuration. The result 0 is a failure.
  unfoldable pub create : Bytes → Bytes → Bytes → FileType → ℕ → ℕ → db.State → ℕ × db.State
  create user group name type parent_id mode s =
      let (success, s') =
        db.query
          (insert_file parent_id name (file_type_str type) user group (create_mode type mode)) s in
      if success then (u32 (db.insert_id s'), s') else (0, s')

  unfoldable pub delete : ℕ → db.State → Bool × db.State
  delete file_id s = db.query (delete_file file_id) s

  unfoldable pub change_times : ℕ → ℕ → ℕ → db.State → Bool × db.State
  change_times file_id accessed modified s = db.query (set_times file_id accessed modified) s

  -- user != NULL && user[0] != '\0'
  abbrev given : Bytes → Option Bytes
  given [] = none
  given (c ∷ name) = some (c ∷ name)

  unfoldable pub chown : ℕ → Bytes → Bytes → db.State → Bool × db.State
  chown file_id [] [] s = (false, s)
  chown file_id user group s = db.query (set_owner file_id (given user) (given group)) s

  unfoldable pub chmod : ℕ → ℕ → db.State → Bool × db.State
  chmod file_id mode s = db.query (set_mode file_id mode) s

  -- The files are given by their File ID and their parent's, 0 for no parent.
  unfoldable pub swap : ℕ → ℕ → ℕ → ℕ → db.State → Bool × db.State
  unfolding stop
  swap file1 parent1 file2 parent2 s =
      let (started, s0) = db.query start_transaction s in
      let (first, s1) = db.query (set_parent file1 parent2) s0 in
      let (second, s2) = db.query (set_parent file2 parent1) s1 in
      if started
      then (if first then (second, stop db second s2) else (false, stop db false s1))
      else (false, s0)

  unfoldable pub rename : ℕ → ℕ → Bytes → db.State → Bool × db.State
  rename file_id parent_id name s = db.query (set_place file_id parent_id name) s

  -- `none` is a failure.
  unfoldable pub get_num_files : db.State → Option ℕ × db.State
  get_num_files s =
      let (res, s') = db.select count_files s in
      (elim res [ some (count ∷ _) ↦ some count | _ ↦ none ], s')

  unfoldable pub get_space_used : Bytes → db.State → Option ℕ × db.State
  get_space_used database s =
      let (res, s') = db.select (space_used database) s in
      (elim res [ some (space ∷ _) ↦ some space | _ ↦ none ], s')
