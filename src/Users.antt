-- ===== src/Users.antt =====
-- The users and groups of the host: util_username, util_user_id, util_user_exists and the same for
-- groups of src/myfs/util.c, over the lookups of the C library.
use myfs.Base.{ℕ, ◌≡◌, refl, Bool, false, Option, none, some, Bytes, ◌==◌, if◌then◌else◌}
use myfs.Store.Query.{Lookup, found, failed, Host}
use myfs.Text.Copy.{strlcpy, string_of}
use myfs.Fs.Change.{owner_name, owner_size, no_id}

-- `struct passwd` and `struct group`, the fields that are read.
pub record Passwd : Type 0 where
  pub pw_name : Bytes
  pub pw_uid : ℕ

pub record Group : Type 0 where
  pub gr_name : Bytes
  pub gr_gid : ℕ

-- What getpwuid_r and the like return, and what they store in `result`.
pub record Accounts : Type 0 where
  pub getpwuid_r : ℕ → ℕ × Option Passwd
  pub getpwnam_r : Bytes → ℕ × Option Passwd
  pub getgrgid_r : ℕ → ℕ × Option Group
  pub getgrnam_r : Bytes → ℕ × Option Group

-- ENOENT
abbrev not_found : ℕ
not_found = 2

-- A result of NULL is an error: the one returned, or that there is no entry.
abbrev entry : {A : Type 0} → ℕ × Option A → Lookup A
entry (ret, none) = failed (if ret == 0 then not_found else ret)
entry (ret, some result) = found result

abbrev field : {A B : Type 0} → (A → B) → Lookup A → Lookup B
field f (found x) = found (f x)
field f (failed e) = failed e

-- The value that is returned.
abbrev code : {A : Type 0} → Lookup A → ℕ
code (found x) = 0
code (failed e) = e

module _ (a : Accounts) where
  unfoldable pub util_username : ℕ → ℕ → Lookup Bytes
  util_username uid size =
      field (λ (p : Passwd). string_of (strlcpy size p.pw_name).0) (entry (a.getpwuid_r uid))

  unfoldable pub util_user_id : Bytes → Lookup ℕ
  util_user_id name = field (λ (p : Passwd). p.pw_uid) (entry (a.getpwnam_r name))

  unfoldable pub util_user_exists : Bytes → Bool
  unfolding util_user_id
  util_user_exists name = code (util_user_id name) == 0

  unfoldable pub util_groupname : ℕ → ℕ → Lookup Bytes
  util_groupname gid size =
      field (λ (g : Group). string_of (strlcpy size g.gr_name).0) (entry (a.getgrgid_r gid))

  unfoldable pub util_group_id : Bytes → Lookup ℕ
  util_group_id name = field (λ (g : Group). g.gr_gid) (entry (a.getgrnam_r name))

  unfoldable pub util_group_exists : Bytes → Bool
  unfolding util_group_id
  util_group_exists name = code (util_group_id name) == 0

  -- The host as the file store sees it.
  unfoldable pub host_of : Bytes → Bytes → Bytes → ℕ → ℕ → Host
  unfolding util_user_id util_group_id
  host_of user group database fuse_uid fuse_gid = record {
    user = user;
    group = group;
    database = database;
    fuse_uid = fuse_uid;
    fuse_gid = fuse_gid;
    user_id = util_user_id;
    group_id = util_group_id;
    username = λ uid. field (λ (p : Passwd). p.pw_name) (entry (a.getpwuid_r uid));
    groupname = λ gid. field (λ (g : Group). g.gr_name) (entry (a.getgrgid_r gid));
  }

-- What chown calls the users is what util_username gives for a buffer of its size.
owner_name-username :
    (a : Accounts) (user group database : Bytes) (fuse_uid fuse_gid uid : ℕ)
    → (uid == no_id) ≡ false
    → owner_name (host_of a user group database fuse_uid fuse_gid).username uid
      ≡ util_username a uid owner_size
unfolding owner_name host_of util_username
owner_name-username a user group database fuse_uid fuse_gid uid given =
    rw (owner_name, given) (by_entry (entry (a.getpwuid_r uid)))
  where
    by_entry :
        (l : Lookup Passwd)
        → elim (field (λ (p : Passwd). p.pw_name) l) [
          | found name ↦ found (string_of (strlcpy owner_size name).0)
          | failed e ↦ failed e
        ]
          ≡ field (λ (p : Passwd). string_of (strlcpy owner_size p.pw_name).0) l
    by_entry (found p) = refl
    by_entry (failed e) = refl
