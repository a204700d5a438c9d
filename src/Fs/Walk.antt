-- ===== src/Fs/Walk.antt =====
-- From a path to a file: `myfs_file_get` of src/myfs/myfs.c and the functions over it.
pub mod Finds
use myfs.Base.{ℕ, Bool, true, false, Option, none, some, List, [], ◌∷◌, Bytes}
use myfs.Sql.{Sql, Outcome, done, fault, running}
use myfs.Store.Query.{Host, File, file_id, query_name}
use myfs.Text.Path.{tokens}
use myfs.Fs.Context.{slot}

-- The File ID, where there is a file.
abbrev pub id_of : Option File → Option ℕ
id_of none = none
id_of (some f) = some (file_id f)

module _ (db : Sql) (host : Host) where
  -- The loop over the parts of the path; a part below a file that was not found is a NULL access.
  unfoldable pub walk :
      ℕ → List Bytes → Option File → Bool → db.State → Outcome (Option File) × db.State
  walk fuel [] f include_children s = (done f, s)
  walk fuel (name ∷ names) none include_children s = (fault, s)
  walk fuel (name ∷ names) (some f) include_children s =
      let (r, s') = query_name db host fuel name (file_id f) include_children s in
      elim r [
        | done g ↦ walk fuel names g include_children s'
        | fault ↦ (fault, s')
        | running ↦ (running, s')
      ]

  -- `path + 1` is beyond the terminator of an empty path.
  unfoldable pub file_get : ℕ → Bytes → Bool → db.State → Outcome (Option File) × db.State
  unfolding walk
  file_get fuel [] include_children s = (fault, s)
  file_get fuel (c ∷ path) include_children s =
      let (r, s') = query_name db host fuel [] 0 include_children s in
      elim r [
        | done root ↦ walk fuel (tokens path) root include_children s'
        | fault ↦ (fault, s')
        | running ↦ (running, s')
      ]

  -- myfs_file_get_file_id: `none` is the result false
  unfoldable pub file_get_file_id : ℕ → Bytes → db.State → Outcome (Option ℕ) × db.State
  unfolding file_get
  file_get_file_id fuel path s =
      let (r, s') = file_get fuel path false s in
      (elim r [ done f ↦ done (id_of f) | fault ↦ fault | running ↦ running ], s')

  -- myfs_file_exists, which always succeeds
  unfoldable pub file_exists : ℕ → Bytes → db.State → Outcome Bool × db.State
  unfolding file_get
  file_exists fuel path s =
      let (r, s') = file_get fuel path false s in
      (
        elim r [
          | done none ↦ done false
          | done (some f) ↦ done true
          | fault ↦ fault
          | running ↦ running
        ],
        s',
      )

  -- myfs_get_file_id: by the open file where `fi` is given, else by the path
  unfoldable pub get_file_id :
      ℕ → Bytes → Option ℕ → List (Option File) → db.State → Outcome (Option ℕ) × db.State
  unfolding file_get_file_id
  get_file_id fuel path none files s = file_get_file_id fuel path s
  get_file_id fuel path (some fh) files s =
      (elim (slot files fh) [ none ↦ fault | some f ↦ done (id_of f) ], s)
