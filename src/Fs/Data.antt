-- ===== src/Fs/Data.antt =====
-- `myfs_read` and `myfs_write` of src/myfs/myfs.c.
pub mod Content
pub mod Failure
use myfs.Base.{
  ℕ, ◌+◌, Bool, true, false, ◌||◌, Option, none, some, List, Bytes, ltb, ◌==◌, if◌then◌else◌,
  length, sub64, get_elem?, set,
}
use myfs.Sql.{Sql, Outcome, done, fault, running}
use myfs.Store.Query.{Stat, File, file_id, stat_of, with_stat}
use myfs.Store.Append.{append}
use myfs.Store.Write.{write}
use myfs.Store.Read.{read}
use myfs.Fs.Context.{Reply, ok, err, eio, Myfs, Callback, slot, at_slot, with_conn}

-- `size` bytes from `offset` on, cut at the size of the file as the open file has it.
unfoldable pub read_size : ℕ → ℕ → ℕ → ℕ
read_size st_size size offset = if ltb st_size (offset + size) then sub64 st_size offset else size

-- file->st.st_size += size
unfoldable pub grown : ℕ → File → File
grown n f = with_stat (record (stat_of f) { st_size = (stat_of f).st_size + n }) f

module _ (db : Sql) where
  -- The result is the bytes that are put into the buffer, which has room for `size`.
  unfoldable pub read_file : ℕ → ℕ → ℕ → Callback db Bytes
  unfolding read_size
  read_file size offset fh m = elim (slot m.files fh) [
    | some (some f) ↦
        let (r, s) =
          read db (file_id f) size (read_size (stat_of f).st_size size offset) offset m.conn in
        (
          elim r [
            | done none ↦ done (err eio)
            | done (some out) ↦ done (ok out)
            | fault ↦ fault
            | running ↦ running
          ],
          with_conn m s,
        )
    | _ ↦ (fault, m)
  ]

  -- `appending` is whether O_APPEND is among the flags.
  unfoldable pub store_data : Bool → File → Bytes → ℕ → db.State → Bool × db.State
  store_data appending f bytes offset s =
      if appending || (stat_of f).st_size == offset
      then append db (file_id f) bytes s
      else write db (file_id f) bytes offset s

  unfoldable pub write_file : Bool → Bytes → ℕ → ℕ → Callback db ℕ
  unfolding store_data grown
  write_file appending bytes offset fh m = elim (slot m.files fh) [
    | some (some f) ↦
        let (success, s) = store_data appending f bytes offset m.conn in
        if success
        then (
          done (ok (length bytes)),
          record m { conn = s; files = at_slot m.files fh (some (grown (length bytes) f)) },
        )
        else (done (err eio), with_conn m s)
    | _ ↦ (fault, m)
  ]
