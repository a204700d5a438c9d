-- ===== src/Fs/Change.antt =====
-- The callbacks that change a file's row, or add or remove one.
pub mod Removes
pub mod Makes
use myfs.Base.{
  ℕ, ◌-◌, ◌^◌, Bool, true, false, Option, none, some, [], Bytes, ltb, ◌==◌, if◌then◌else◌,
}
use myfs.Sql.{Sql, Outcome, done, fault, running}
use myfs.Store.Kind.{regular, directory}
use myfs.Store.Query.{File, Lookup, found, failed, file_id, children_of_file, children_count}
use myfs.Store.Meta.{create, delete, change_times, chown, chmod}
use myfs.Store.Truncate.{truncate}
use myfs.Reclaimer.{general, deletion}
use myfs.Text.Copy.{strlcpy, string_of}
use myfs.Text.Path.{util_basename, util_dirname}
use myfs.Fs.Context.{
  Reply, ok, err, enoent, eperm, eio, enotempty, other, Around, Myfs, Callback, slot, with_conn,
  notified,
}
use myfs.Fs.Walk.{file_get, get_file_id}
use myfs.Fs.Handle.{open_helper}

-- MYFS_PATH_NAME_MAX_LEN + 1 and MYFS_FILE_NAME_MAX_LEN + 1
abbrev pub dir_size : ℕ
dir_size = 1025

abbrev pub name_size : ℕ
name_size = 65

-- MYFS_USER_NAME_MAX_LEN + 1, and MYFS_GROUP_NAME_MAX_LEN + 1
abbrev pub owner_size : ℕ
owner_size = 33

-- (uid_t)-1
abbrev pub no_id : ℕ
no_id = 2 ^ 32 - 1

-- util_username, util_groupname: the name found, as the buffer takes it
unfoldable pub owner_name : (ℕ → Lookup Bytes) → ℕ → Lookup Bytes
owner_name lookup id = if id == no_id then found [] else elim (lookup id) [
  | found name ↦ found (string_of (strlcpy owner_size name).0)
  | failed e ↦ failed e
]

module _ (db : Sql) (a : Around) where
  -- What a callback returns for a call that reports success by a Boolean.
  abbrev pub or_eio : Bool × db.State → Myfs db → Outcome (Reply (Unit {0})) × Myfs db
  or_eio (true, s) m = (done (ok tt), with_conn m s)
  or_eio (false, s) m = (done (err eio), with_conn m s)

  -- The same, and the reclaimer is told of a deletion.
  abbrev pub or_eio_deletion : Bool × db.State → Myfs db → Outcome (Reply (Unit {0})) × Myfs db
  or_eio_deletion (true, s) m = (done (ok tt), notified deletion a.now (with_conn m s))
  or_eio_deletion (false, s) m = (done (err eio), with_conn m s)

  -- myfs_truncate: the file must be open, `fi` given
  unfoldable pub truncate_open : ℕ → Option ℕ → Callback db (Unit {0})
  truncate_open size none m = (fault, m)
  truncate_open size (some fh) m = elim (slot m.files fh) [
    | some (some f) ↦
        let (r, s) = truncate db a.fuel (file_id f) size m.conn in
        elim r [
          | done success ↦ or_eio_deletion (success, s) m
          | fault ↦ (fault, with_conn m s)
          | running ↦ (running, with_conn m s)
        ]
    | _ ↦ (fault, m)
  ]

  -- A callback that starts by the search for the File ID, by `fi` or by the path.
  unfoldable pub with_file_id :
      Bytes → Option ℕ → (ℕ → Callback db (Unit {0})) → Callback db (Unit {0})
  unfolding get_file_id
  with_file_id path fi k m =
      let (r, s) = get_file_id db a.host a.fuel path fi m.files m.conn in
      elim r [
        | done none ↦ (done (err enoent), with_conn m s)
        | done (some id) ↦ k id (with_conn m s)
        | fault ↦ (fault, with_conn m s)
        | running ↦ (running, with_conn m s)
      ]

  unfoldable pub utimens : Bytes → ℕ → ℕ → Option ℕ → Callback db (Unit {0})
  unfolding with_file_id
  utimens path accessed modified fi =
      with_file_id path fi (λ id m. or_eio (change_times db id accessed modified m.conn) m)

  unfoldable pub chown_to : ℕ → Lookup Bytes → Lookup Bytes → Callback db (Unit {0})
  chown_to id (failed e) group m = (done (err (other e)), m)
  chown_to id (found user) (failed e) m = (done (err (other e)), m)
  chown_to id (found user) (found group) m = or_eio (chown db id user group m.conn) m

  -- myfs_chown
  unfoldable pub chown_file : Bytes → ℕ → ℕ → Option ℕ → Callback db (Unit {0})
  unfolding with_file_id chown_to owner_name
  chown_file path uid gid fi = with_file_id path fi (λ id m.
      if id == 0
      then (done (err eperm), m)
      else chown_to id (owner_name a.host.username uid) (owner_name a.host.groupname gid) m)

  -- myfs_chmod
  unfoldable pub chmod_file : Bytes → ℕ → Option ℕ → Callback db (Unit {0})
  unfolding with_file_id
  chmod_file path mode fi =
      with_file_id path fi
        (λ id m. if id == 0 then (done (err eperm), m) else or_eio (chmod db id mode m.conn) m)

  -- A callback that starts by the search for the file of a path.
  unfoldable pub with_file : {A : Type 0} → Bytes → Bool → (File → Callback db A) → Callback db A
  with_file path children k m =
      let (r, s) = file_get db a.host a.fuel path children m.conn in
      elim r [
        | done none ↦ (done (err enoent), with_conn m s)
        | done (some f) ↦ k f (with_conn m s)
        | fault ↦ (fault, with_conn m s)
        | running ↦ (running, with_conn m s)
      ]

  unfoldable pub unlink : Bytes → Callback db (Unit {0})
  unfolding with_file
  unlink path = with_file path false (λ f m. or_eio_deletion (delete db (file_id f) m.conn) m)

  unfoldable pub rmdir : Bytes → Callback db (Unit {0})
  unfolding with_file
  rmdir path = with_file path true (λ f m.
      if file_id f == 0
      then (done (err eperm), m)
      else if ltb 0 (children_count (children_of_file f))
      then (done (err enotempty), m)
      else or_eio_deletion (delete db (file_id f) m.conn) m)

  -- A new file of a type and a mode below the directory of a path; 0 is a failure.
  unfoldable pub create_below :
      {A : Type 0}
      → Bytes
      → (Bytes → ℕ → db.State → ℕ × db.State)
      → (ℕ → Callback db A)
      → Callback db A
  unfolding with_file
  create_below path make k = with_file (util_dirname path dir_size) false (λ parent m.
      let (id, s) = make (util_basename path name_size) (file_id parent) m.conn in
      if id == 0 then (done (err eio), with_conn m s) else k id (with_conn m s))

  -- The call of `myfs_db_file_create`, with the configured user and group.
  abbrev pub make_directory : ℕ → Bytes → ℕ → db.State → ℕ × db.State
  make_directory mode name parent = create db a.host.user a.host.group name directory parent mode

  abbrev pub make_file : ℕ → Bytes → ℕ → db.State → ℕ × db.State
  make_file mode name parent = create db a.host.user a.host.group name regular parent mode

  unfoldable pub mkdir : Bytes → ℕ → Callback db (Unit {0})
  unfolding create_below
  mkdir path mode =
      create_below path (make_directory mode) (λ id m. (done (ok tt), notified general a.now m))

  -- The reclaimer is told once the file is open.
  abbrev pub opened : Outcome (Reply ℕ) × Myfs db → Outcome (Reply ℕ) × Myfs db
  opened (done (ok fh), m) = (done (ok fh), notified general a.now m)
  opened (r, m) = (r, m)

  -- myfs_create: the mode is 0640 whatever is asked for; the file is opened, the result its handle.
  unfoldable pub create_file : Bytes → Callback db ℕ
  unfolding create_below
  create_file path =
      create_below path (make_file 0o640) (λ id m. opened (open_helper db a path false false m))
