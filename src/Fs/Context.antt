-- ===== src/Fs/Context.antt =====
-- The context of the FUSE callbacks (`myfs_t` of src/myfs/myfs.h), and what they return.
use myfs.Base.{ℕ, Option, List, get_elem?, set}
use myfs.Sql.{Sql, Outcome}
use myfs.Store.Query.{Host, File}
use myfs.Reclaimer
use myfs.Reclaimer.{Reclaimer, Action}

-- MYFS_FILES_OPEN_MAX
abbrev pub files_open_max : ℕ
files_open_max = 128

-- The error numbers that the callbacks return, negated; `other` is an errno of the host.
pub data Errno : Type 0 where
  enoent eperm eio emfile enotempty einval eexist : Errno
  other : ℕ → Errno

-- A callback returns a number that is not negative, or a negated errno.
pub data Reply (A : Type 0) : Type 0 where
  ok : A → Reply A
  err : Errno → Reply A

-- A callback's surroundings: the fuel of its loops, the host, and the time.
pub record Around : Type 0 where
  pub fuel : ℕ
  pub host : Host
  pub now : ℕ

module _ (db : Sql) where
  pub record Myfs : Type 0 where
    pub conn : db.State
    -- the open files, `files_open_max` of them
    pub files : List (Option File)
    pub reclaimer : Reclaimer

  abbrev pub Callback : Type 0 → Type 0
  Callback A = Myfs → Outcome (Reply A) × Myfs

-- `myfs->files[fh]`; beyond the array the access is a fault, which `none` stands for.
abbrev pub slot : List (Option File) → ℕ → Option (Option File)
slot files fh = get_elem? files fh

abbrev pub at_slot : List (Option File) → ℕ → Option File → List (Option File)
at_slot files fh f = set files fh f

module _ {db : Sql} where
  abbrev pub with_conn : Myfs db → db.State → Myfs db
  with_conn m s = record m { conn = s }

  -- reclaimer_notify
  abbrev pub notified : Action → ℕ → Myfs db → Myfs db
  notified action now m = record m { reclaimer = Reclaimer.notify action now m.reclaimer }
