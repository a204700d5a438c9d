-- ===== src/Fs/Link.antt =====
-- `myfs_symlink` and `myfs_readlink` of src/myfs/myfs.c.
use myfs.Base.{ℕ, ◌-◌, false, none, some, Bytes, [], ◌∷◌, ◌==◌, if◌then◌else◌, length, take}
use myfs.Sql.{Sql, done, fault, running}
use myfs.Store.Kind.{soft_link}
use myfs.Store.Query.{File, file_id, type_of}
use myfs.Store.Meta.{create}
use myfs.Store.Append.{append}
use myfs.Store.Read.{read}
use myfs.Fs.Context.{ok, err, eio, einval, Around, Callback, with_conn}
use myfs.Fs.Change.{or_eio, with_file, create_below}

module _ (db : Sql) (a : Around) where
  unfoldable pub symlink : Bytes → Bytes → Callback db (Unit {0})
  unfolding create_below
  symlink target path =
      create_below db a path
        (λ name parent. create db a.host.user a.host.group name soft_link parent 0o777)
        (λ id m. or_eio db a (append db id target m.conn) m)

  -- The string that is left in a buffer of `size` bytes: its last byte gives way to a terminator.
  unfoldable pub link_text : ℕ → Bytes → Bytes
  link_text size out = if length out == size then take (size - 1) out else out

  unfoldable pub read_target : ℕ → File → Callback db Bytes
  unfolding link_text
  read_target size f m =
      let (r, s) = read db (file_id f) size size 0 m.conn in
      (
        elim r [
          | done none ↦ done (err eio)
          | done (some []) ↦ done (err eio)
          | done (some (c ∷ out)) ↦ done (ok (link_text size (c ∷ out)))
          | fault ↦ fault
          | running ↦ running
        ],
        with_conn m s,
      )

  unfoldable pub readlink : Bytes → ℕ → Callback db Bytes
  unfolding with_file read_target
  readlink path size =
      with_file db a path false
        (λ f m. elim (type_of f) [ soft_link ↦ read_target size f m | _ ↦ (done (err einval), m) ])
