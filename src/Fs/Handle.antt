-- ===== src/Fs/Handle.antt =====
-- The open files table: `myfs_open_helper`, `myfs_release_helper`, and the callbacks over them.
pub mod Slots
use myfs.Base.{
  ℕ, zero, suc, ◌+◌, Bool, true, false, not, ◌&&◌, Option, none, some, List, [], ◌∷◌, Bytes,
  if◌then◌else◌, get_elem?, set,
}
use myfs.Sql.{Sql, Outcome, done, fault, running}
use myfs.Store.Query.{File, Children, no_more, child, absent, file_id, file_name, children_of_file}
use myfs.Store.Truncate.{truncate}
use myfs.Fs.Context.{
  Reply, ok, err, enoent, eio, emfile, Around, Myfs, Callback, slot, at_slot, with_conn,
}
use myfs.Fs.Walk.{file_get}

-- The loop for the first handle that is not in use, over the slots from `fh` on.
unfoldable pub first_free : ℕ → List (Option File) → Option ℕ
first_free fh [] = none
first_free fh (none ∷ files) = some fh
first_free fh (some f ∷ files) = first_free (fh + 1) files

module _ (db : Sql) (a : Around) where
  -- The file is put into the table; the result is the handle, `fi->fh`.
  unfoldable pub install : ℕ → File → Myfs db → Outcome (Reply ℕ) × Myfs db
  install fh f m = (done (ok fh), record m { files = at_slot m.files fh (some f) })

  unfoldable pub open_file : Bool → ℕ → File → Myfs db → Outcome (Reply ℕ) × Myfs db
  unfolding install
  open_file false fh f m = install fh f m
  open_file true fh f m =
      let (r, s) = truncate db a.fuel (file_id f) 0 m.conn in
      elim r [
        | done true ↦ install fh f (with_conn m s)
        | done false ↦ (done (err eio), with_conn m s)
        | fault ↦ (fault, with_conn m s)
        | running ↦ (running, with_conn m s)
      ]

  -- `dir`: a directory is opened, with its children; `cut`: the file is truncated.
  unfoldable pub open_helper : Bytes → Bool → Bool → Callback db ℕ
  unfolding open_file
  open_helper path dir cut m = elim (first_free 0 m.files) [
    | none ↦ (done (err emfile), m)
    | some fh ↦
        let (r, s) = file_get db a.host a.fuel path dir m.conn in
        elim r [
          | done none ↦ (done (err enoent), with_conn m s)
          | done (some f) ↦ open_file (not dir && cut) fh f (with_conn m s)
          | fault ↦ (fault, with_conn m s)
          | running ↦ (running, with_conn m s)
        ]
  ]

  -- A handle that is not open is freed as a NULL pointer is: a fault.
  unfoldable pub release_helper : ℕ → Callback db (Unit {0})
  release_helper fh m = elim (slot m.files fh) [
    | some (some f) ↦ (done (ok tt), record m { files = at_slot m.files fh none })
    | _ ↦ (fault, m)
  ]

  unfoldable pub opendir : Bytes → Callback db ℕ
  unfolding open_helper
  opendir path m = open_helper path true false m

  unfoldable pub releasedir : ℕ → Callback db (Unit {0})
  unfolding release_helper
  releasedir fh m = release_helper fh m

  -- `cut` is whether O_TRUNC is among the flags.
  unfoldable pub myfs_open : Bytes → Bool → Callback db ℕ
  unfolding open_helper
  myfs_open path cut m = open_helper path false cut m

  unfoldable pub release : ℕ → Callback db (Unit {0})
  unfolding release_helper
  release fh m = release_helper fh m

  unfoldable pub flush : Callback db (Unit {0})
  flush m = (done (ok tt), m)

-- The names of the children; a child whose query failed is a NULL access.
unfoldable pub child_names : Children → Outcome (List Bytes)
child_names no_more = done []
child_names (absent cs) = fault
child_names (child f cs) = elim (child_names cs) [
  | done names ↦ done (file_name f ∷ names)
  | fault ↦ fault
  | running ↦ running
]

abbrev pub dot : Bytes
dot = b'.' ∷ []

abbrev pub dot_dot : Bytes
dot_dot = b'.' ∷ b'.' ∷ []

module _ (db : Sql) where
  -- The names that are handed to `filler`, in order.
  unfoldable pub readdir : ℕ → Callback db (List Bytes)
  unfolding child_names
  readdir fh m = elim (slot m.files fh) [
    | some (some f) ↦ (
      elim (child_names (children_of_file f)) [
        | done names ↦ done (ok (dot ∷ dot_dot ∷ names))
        | fault ↦ fault
        | running ↦ running
      ],
      m,
    )
    | _ ↦ (fault, m)
  ]
