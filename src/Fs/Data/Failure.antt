-- ===== src/Fs/Data/Failure.antt =====
-- What `myfs_write` leaves behind where it does not return the number of the bytes.
use myfs.Base.{
  ℕ, ◌≡◌, ◌≢◌, refl, inl, inr, Bool, false, ◌||◌, Bool-cases, some, Bytes, ◌==◌, length,
}
use myfs.Sql.{Sql, done}
use myfs.Sql.Tables.{Collation}
use myfs.Sql.Laws.{Documented}
use myfs.Sql.Steps.{tables_of}
use myfs.Store.Append.Failure.{append-kept}
use myfs.Store.Write.Failure.{write-kept}
use myfs.Store.Query.{File, file_id, stat_of}
use myfs.Fs.Context.{ok, err, eio, Myfs, slot}
use myfs.Fs.Data.{store_data, write_file}

module _ (c : Collation) (db : Sql) (d : Documented c db) where
  store_data-kept :
      (appending : Bool) (f : File) (bytes : Bytes) (offset : ℕ) (s : db.State)
      → (store_data db appending f bytes offset s).0 ≡ false
      → tables_of c db d (store_data db appending f bytes offset s).1 ≡ tables_of c db d s
  unfolding store_data
  store_data-kept appending f bytes offset s failed =
      elim (Bool-cases (appending || (stat_of f).st_size == offset)) [
        | inl at_end ↦
            rw (store_data, at_end)
              (append-kept c db d (file_id f) bytes s (rw (store_data, at_end) at failed))
        | inr inside ↦
            rw (store_data, inside)
              (write-kept c db d (file_id f) bytes offset s (rw (store_data, inside) at failed))
      ]

  -- A write at any offset through the handle of an open file ends with the number of all the bytes,
  -- or with EIO, the tables and the table of open files being as they were.
  pub write_file-kept :
      (appending : Bool) (bytes : Bytes) (offset fh : ℕ) (f : File) (m : Myfs db)
      → slot m.files fh ≡ some (some f)
      → (write_file db appending bytes offset fh m).0 ≢ done (ok (length bytes))
      → let r = write_file db appending bytes offset fh m in
        (r.0 ≡ done (err eio))
        × (tables_of c db d r.1.conn ≡ tables_of c db d m.conn)
        × (r.1.files ≡ m.files)
  unfolding write_file
  write_file-kept appending bytes offset fh f m there not_all = elim (Bool-cases stored.0) [
    | inl all ↦ absurd ((rw (write_file, there, all) at not_all) refl)
    | inr failed ↦
        rw (write_file, there, failed)
          (refl, store_data-kept appending f bytes offset m.conn failed, refl)
  ]
    where
      stored : Bool × db.State
      stored = store_data db appending f bytes offset m.conn
