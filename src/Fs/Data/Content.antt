-- ===== src/Fs/Data/Content.antt =====
-- What `myfs_write` does with an open file that is appended to, against the tables.

use myfs.Base.{
  ℕ, ◌+◌, ◌^◌, ◌≤◌, ◌≡◌, refl, inl, inr, Bool, true, ◌||◌, Bool-cases, some, Bytes, ◌++◌, ◌==◌,
  length,
}
use myfs.Sql.{Sql, Outcome, done}
use myfs.Sql.Tables.{Collation}
use myfs.Sql.Laws.{Commits, Documented}
use myfs.Sql.Steps.{tables_of, saved_of}
use myfs.Store.Content.{content, WellFormed, Changed}
use myfs.Store.Append.{append}
use myfs.Store.Append.Content.{Appended, append_lem}
use myfs.Store.Query.{File, file_id, stat_of}
use myfs.Fs.Context.{Reply, ok, err, eio, Myfs, slot, at_slot}
use myfs.Fs.Data.{grown, write_file, store_data}

module _ (c : Collation) (db : Sql) (d : Documented c db) where
  -- The reply to a write, and what it has done: all the bytes are behind the old content, and the
  -- open file has grown by as many, and this is committed; or nothing has changed, in the tables or in the open files.
  pub data Wrote (bytes : Bytes) (fh : ℕ) (f : File) (m : Myfs db)
      : Outcome (Reply ℕ) → Myfs db → Type 0 where
    all_written :
        (m' : Myfs db)
        → Changed
            (tables_of c db d m.conn)
            (tables_of c db d m'.conn)
            (file_id f)
            (content (tables_of c db d m.conn) (file_id f) ++ bytes)
        → saved_of c db d m'.conn ≡ tables_of c db d m'.conn
        → m'.files ≡ at_slot m.files fh (some (grown (length bytes) f))
        → Wrote bytes fh f m (done (ok (length bytes))) m'
    none_written :
        (m' : Myfs db)
        → tables_of c db d m'.conn ≡ tables_of c db d m.conn
        → m'.files ≡ m.files
        → Wrote bytes fh f m (done (err eio)) m'

  -- A write through the handle of an open file, with O_APPEND or at what the open file has as its
  -- size, ends with the reply of the number of all the bytes, and they are behind the content that
  -- the tables held and committed, or with EIO and nothing changed, whatever statements but COMMIT
  -- fail.
  pub write_file_lem :
      (appending : Bool) (bytes : Bytes) (offset fh : ℕ) (f : File) (m : Myfs db)
      → slot m.files fh ≡ some (some f)
      → (appending || (stat_of f).st_size == offset) ≡ true
      → WellFormed (tables_of c db d m.conn)
      → length (content (tables_of c db d m.conn) (file_id f)) + length bytes + 8192 ≤ 2 ^ 44
      → Commits db
      → let r = write_file db appending bytes offset fh m in Wrote bytes fh f m r.0 r.1
  unfolding write_file store_data
  write_file_lem appending bytes offset fh f m there at_end w room commits =
      elim (Bool-cases stored.0) [
        | inl done_all ↦
            rw (there, write_file, to_append, done_all)
              (all_written _ (a.changed done_all) (a.lasting done_all) refl)
        | inr failed ↦
            rw (there, write_file, to_append, failed) (none_written _ (a.kept failed) refl)
      ]
    where
      stored : Bool × db.State
      stored = append db (file_id f) bytes m.conn

      a : Appended c db d (file_id f) bytes m.conn stored.0 stored.1
      a = append_lem c db d (file_id f) bytes m.conn w room commits

      to_append : store_data db appending f bytes offset m.conn ≡ stored
      to_append = rw (at_end, store_data) refl
