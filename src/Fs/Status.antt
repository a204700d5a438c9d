-- ===== src/Fs/Status.antt =====
-- The callbacks that report on a file or on the file system.
use myfs.Base.{ℕ, false, none, some, Bytes}
use myfs.Sql.{Sql, done, fault, running}
use myfs.Store.Query.{Stat, stat_of}
use myfs.Store.Meta.{get_num_files, get_space_used}
use myfs.Fs.Context.{ok, err, enoent, eio, Around, Callback, with_conn}
use myfs.Fs.Walk.{file_get}

-- The fields of `struct statvfs` that are set.
pub record StatVfs : Type 0 where
  pub f_bsize : ℕ
  pub f_frsize : ℕ
  pub f_namemax : ℕ
  pub f_files : ℕ
  pub f_blocks : ℕ

module _ (db : Sql) (a : Around) where
  unfoldable pub statfs : Callback db StatVfs
  statfs m =
      let (count, s1) = get_num_files db m.conn in
      let (space, s2) = get_space_used db a.host.database s1 in
      elim count [
        | none ↦ (done (err eio), with_conn m s1)
        | some n ↦ elim space [
          | none ↦ (done (err eio), with_conn m s2)
          | some b ↦ (
            done (
                ok (record {
                  f_bsize = 1;
                  f_frsize = 1;
                  f_namemax = 64;
                  f_files = n;
                  f_blocks = b;
                })),
            with_conn m s2,
          )
        ]
      ]

  unfoldable pub getattr : Bytes → Callback db Stat
  getattr path m =
      let (r, s) = file_get db a.host a.fuel path false m.conn in
      (
        elim r [
          | done none ↦ done (err enoent)
          | done (some f) ↦ done (ok (stat_of f))
          | fault ↦ fault
          | running ↦ running
        ],
        with_conn m s,
      )

  -- The mode is not looked at.
  unfoldable pub access : Bytes → Callback db (Unit {0})
  access path m =
      let (r, s) = file_get db a.host a.fuel path false m.conn in
      (
        elim r [
          | done none ↦ done (err enoent)
          | done (some f) ↦ done (ok tt)
          | fault ↦ fault
          | running ↦ running
        ],
        with_conn m s,
      )
