-- ===== src/Fs/Rename.antt =====
-- `myfs_rename` of src/myfs/myfs.c.
use myfs.Base.{ℕ, true, false, Bytes, ◌==◌, if◌then◌else◌}
use myfs.Sql.{Sql, done, fault, running}
use myfs.Store.Query.{file_id, parent_id}
use myfs.Store.Meta.{swap, rename}
use myfs.Text.Path.{util_basename, util_dirname}
use myfs.Fs.Context.{err, eexist, einval, Around, Callback, with_conn}
use myfs.Fs.Walk.{file_exists}
use myfs.Fs.Change.{dir_size, name_size, or_eio, with_file}

-- RENAME_NOREPLACE and RENAME_EXCHANGE of <linux/fs.h>
abbrev pub rename_noreplace : ℕ
rename_noreplace = 1

abbrev pub rename_exchange : ℕ
rename_exchange = 2

module _ (db : Sql) (a : Around) where
  unfoldable pub rename_swap : Bytes → Bytes → Callback db (Unit {0})
  unfolding with_file
  rename_swap path_old path_new = with_file db a path_old false (λ old.
      with_file db a path_new false (λ new m.
        or_eio db a (swap db (file_id old) (parent_id old) (file_id new) (parent_id new) m.conn) m))

  unfoldable pub rename_move : Bytes → Bytes → Callback db (Unit {0})
  unfolding with_file
  rename_move path_old path_new m =
      let dir_new = util_dirname path_new dir_size in
      let name_new = util_basename path_new name_size in
      let (r, s) = file_exists db a.host a.fuel name_new m.conn in
      elim r [
        | done true ↦ (done (err eexist), with_conn m s)
        | done false ↦
            with_file db a path_old false
              (λ old.
                with_file db a dir_new false (λ dir m'.
                  or_eio db a (rename db (file_id old) (file_id dir) name_new m'.conn) m'))
              (with_conn m s)
        | fault ↦ (fault, with_conn m s)
        | running ↦ (running, with_conn m s)
      ]

  unfoldable pub rename_file : Bytes → Bytes → ℕ → Callback db (Unit {0})
  unfolding rename_swap rename_move
  rename_file path_old path_new flags m =
      if flags == rename_exchange
      then rename_swap path_old path_new m
      else if flags == rename_noreplace
      then rename_move path_old path_new m
      else (done (err einval), m)
