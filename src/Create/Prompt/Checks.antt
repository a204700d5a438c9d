-- ===== src/Create/Prompt/Checks.antt =====
-- What has been checked when a prompt of src/myfs/create.c waits, and that each answer keeps to it.
use myfs.Base.{
  ◌⊎◌, ◌≡◌, refl, inl, inr, true, false, Bool-cases, not, some, Option-cases, Bytes, same_text,
  ◌&&◌, codes, ap, ◌∙◌,
}
use myfs.Text.Suffix.{str_ends_with}
use myfs.Config.Number.{strtoul32}
use myfs.Create.{Params}
use myfs.Create.Prompt.{
  Prompt, config_file, linux_user, linux_group, mount_point, super_host, super_port, super_user,
  super_password, create_user, database_user, user_host, password, confirm_password, database,
  continue, result, Found, changed, copied, is_empty, path_accepted, mount_accepted,
  take_config_file, take_user, take_group, take_mount, take_super_password, take_user_host,
  take_password, take_confirmation, take_database,
}

module _ (found : Found) where
  -- The questions about this machine.
  abbrev pub IsLocal : Params → Type 0
  IsLocal p =
      (path_accepted found p.config_path ≡ true)
      × (found.user_exists p.user ≡ true)
      × (found.group_exists p.group ≡ true)
      × (mount_accepted found p.mount ≡ true)

  -- The user of the database: a new one, whose two passwords agree, or one there is.
  abbrev pub IsUser : Params → Type 0
  IsUser p =
      (found.database_user_exists p.mariadb_user p.mariadb_user_host
        ≡ some (not p.create_database_user))

  abbrev pub IsConfirmed : Params → Type 0
  IsConfirmed p =
      (p.create_database_user ≡ false) ⊎ (same_text p.mariadb_password1 p.mariadb_password2 ≡ true)

  abbrev pub IsNew : Params → Type 0
  IsNew p = found.database_exists p.mariadb_database ≡ some false

  abbrev pub IsReady : Params → Type 0
  IsReady p = IsLocal p × IsUser p × IsConfirmed p × IsNew p

  -- What has been checked when a prompt waits.
  abbrev pub IsChecked : Prompt → Params → Type 0
  IsChecked config_file p = Unit
  IsChecked linux_user p = path_accepted found p.config_path ≡ true
  IsChecked linux_group p =
      (path_accepted found p.config_path ≡ true) × (found.user_exists p.user ≡ true)
  IsChecked mount_point p =
      (path_accepted found p.config_path ≡ true)
      × (found.user_exists p.user ≡ true)
      × (found.group_exists p.group ≡ true)
  IsChecked super_host p = IsLocal p
  IsChecked super_port p = IsLocal p
  IsChecked super_user p = IsLocal p
  IsChecked super_password p = IsLocal p
  IsChecked create_user p = IsLocal p
  IsChecked database_user p = IsLocal p
  IsChecked user_host p = IsLocal p
  IsChecked password p = IsLocal p × IsUser p × (p.create_database_user ≡ true)
  IsChecked confirm_password p = IsLocal p × IsUser p × (p.create_database_user ≡ true)
  IsChecked database p = IsLocal p × IsUser p × IsConfirmed p
  IsChecked continue p = IsLocal p × IsUser p × IsConfirmed p × IsNew p
  IsChecked (result false) p = Unit
  IsChecked (result true) p = IsReady p

  pub take_config_file-IsChecked :
      (input : Bytes) (p : Params)
      → IsChecked (take_config_file found input p).0 (take_config_file found input p).1
  unfolding take_config_file
  take_config_file-IsChecked input p =
      elim (Bool-cases (not (is_empty input) && not (str_ends_with input (codes ".conf")))) [
        | inl refused ↦ rw refused tt
        | inr taken ↦ elim (Bool-cases (path_accepted found (changed 1024 input p.config_path))) [
          | inl accepted ↦ rw (taken, accepted) accepted
          | inr again ↦ rw (taken, again) tt
        ]
      ]

  pub take_user-IsChecked :
      (input : Bytes) (p : Params)
      → IsChecked linux_user p
      → IsChecked (take_user found input p).0 (take_user found input p).1
  unfolding take_user
  take_user-IsChecked input p h = elim (Bool-cases (found.user_exists (changed 33 input p.user))) [
    | inl accepted ↦ rw accepted (h, accepted)
    | inr again ↦ rw again h
  ]

  pub take_group-IsChecked :
      (input : Bytes) (p : Params)
      → IsChecked linux_group p
      → IsChecked (take_group found input p).0 (take_group found input p).1
  unfolding take_group
  take_group-IsChecked input p h =
      elim (Bool-cases (found.group_exists (changed 33 input p.group))) [
        | inl accepted ↦ rw accepted (h.0, h.1, accepted)
        | inr again ↦ rw again h
      ]

  pub take_mount-IsChecked :
      (input : Bytes) (p : Params)
      → IsChecked mount_point p
      → IsChecked (take_mount found input p).0 (take_mount found input p).1
  unfolding take_mount
  take_mount-IsChecked input p h =
      elim (Bool-cases (mount_accepted found (changed 1024 input p.mount))) [
        | inl accepted ↦ rw accepted (h.0, h.1, h.2, accepted)
        | inr again ↦ rw again h
      ]

  pub take_super_password-IsChecked :
      (input : Bytes) (p : Params)
      → IsLocal p
      → IsChecked (take_super_password found input p).0 (take_super_password found input p).1
  unfolding take_super_password
  take_super_password-IsChecked input p h = elim (Bool-cases (is_empty (copied 128 input))) [
    | inl empty ↦ rw empty h
    | inr given ↦
        elim (Bool-cases (
          found.connected p.mariadb_host p.mariadb_user_root (copied 128 input)
            (strtoul32 p.mariadb_port))) [
              | inl connected ↦ rw (given, connected) h
              | inr again ↦ rw (given, again) h
            ]
  ]

  pub take_user_host-IsChecked :
      (input : Bytes) (p : Params)
      → IsLocal p
      → IsChecked (take_user_host found input p).0 (take_user_host found input p).1
  unfolding take_user_host
  take_user_host-IsChecked input p h =
      elim (Option-cases
        (found.database_user_exists p.mariadb_user (changed 512 input p.mariadb_user_host))) [
          | inl failed ↦ rw failed tt
          | inr (exists, e) ↦ elim (Bool-cases exists) [
            | inl there ↦ elim (Bool-cases p.create_database_user) [
              | inl create ↦ rw (e, create, there) h
              | inr known ↦ rw (e, known, there) (h, e ∙ ap some there, inl refl)
            ]
            | inr missing ↦ elim (Bool-cases p.create_database_user) [
              | inl create ↦ rw (e, create, missing) (h, e ∙ ap some missing, refl)
              | inr known ↦ rw (e, known, missing) h
            ]
          ]
        ]

  pub take_password-IsChecked :
      (input : Bytes) (p : Params)
      → IsChecked password p
      → IsChecked (take_password found input p).0 (take_password found input p).1
  unfolding take_password
  take_password-IsChecked input p h = elim (Bool-cases (is_empty input)) [
    | inl empty ↦ rw empty h
    | inr given ↦ rw given h
  ]

  pub take_confirmation-IsChecked :
      (input : Bytes) (p : Params)
      → IsChecked confirm_password p
      → IsChecked (take_confirmation found input p).0 (take_confirmation found input p).1
  unfolding take_confirmation
  take_confirmation-IsChecked input p h = elim (Bool-cases (is_empty input)) [
    | inl empty ↦ rw empty h
    | inr given ↦ elim (Bool-cases (same_text p.mariadb_password1 (copied 128 input))) [
      | inl same ↦ rw (given, same) (h.0, h.1, inr same)
      | inr differs ↦ rw (given, differs) h
    ]
  ]

  pub take_database-IsChecked :
      (input : Bytes) (p : Params)
      → IsChecked database p
      → IsChecked (take_database found input p).0 (take_database found input p).1
  unfolding take_database
  take_database-IsChecked input p h =
      elim (Option-cases (found.database_exists (changed 128 input p.mariadb_database))) [
        | inl failed ↦ rw failed tt
        | inr (exists, e) ↦ elim (Bool-cases exists) [
          | inl there ↦ rw (e, there) h
          | inr missing ↦ rw (e, missing) (h.0, h.1, h.2, e ∙ ap some missing)
        ]
      ]
