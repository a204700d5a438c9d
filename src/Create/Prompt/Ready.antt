-- ===== src/Create/Prompt/Ready.antt =====
-- What has been checked when the prompts of src/myfs/create.c end.
use myfs.Base.{◌≡◌, inl, inr, true, Bool-cases, List, [], ◌∷◌, Bytes}
use mathlib.Core.Path.{subst}
use myfs.Create.{Params}
use myfs.Create.Prompt.{
  Prompt, config_file, linux_user, linux_group, mount_point, super_host, super_port, super_user,
  super_password, create_user, database_user, user_host, password, confirm_password, database,
  continue, result, Found, entered, is_yes, is_empty, take_input, prompts, create_run_prompt,
}
use myfs.Create.Prompt.Checks.{
  IsChecked, IsReady, take_config_file-IsChecked, take_user-IsChecked, take_group-IsChecked,
  take_mount-IsChecked, take_super_password-IsChecked, take_user_host-IsChecked,
  take_password-IsChecked, take_confirmation-IsChecked, take_database-IsChecked,
}

module _ (found : Found) where
  take_input-IsChecked :
      (at : Prompt) (input : Bytes) (p : Params)
      → IsChecked found at p
      → IsChecked found (take_input found at input p).0 (take_input found at input p).1
  unfolding take_input
  take_input-IsChecked config_file input p h = take_config_file-IsChecked found input p
  take_input-IsChecked linux_user input p h = take_user-IsChecked found input p h
  take_input-IsChecked linux_group input p h = take_group-IsChecked found input p h
  take_input-IsChecked mount_point input p h = take_mount-IsChecked found input p h
  take_input-IsChecked super_host input p h = h
  take_input-IsChecked super_port input p h = h
  take_input-IsChecked super_user input p h = h
  take_input-IsChecked super_password input p h = take_super_password-IsChecked found input p h
  take_input-IsChecked create_user input p h = h
  take_input-IsChecked database_user input p h = h
  take_input-IsChecked user_host input p h = take_user_host-IsChecked found input p h
  take_input-IsChecked password input p h = take_password-IsChecked found input p h
  take_input-IsChecked confirm_password input p h = take_confirmation-IsChecked found input p h
  take_input-IsChecked database input p h = take_database-IsChecked found input p h
  take_input-IsChecked continue input p h = elim (Bool-cases (is_empty input)) [
    | inl empty ↦ rw empty h
    | inr given ↦ elim (Bool-cases (is_yes input)) [
      | inl agreed ↦ rw (given, agreed) h
      | inr refused ↦ rw (given, refused) tt
    ]
  ]
  take_input-IsChecked (result success) input p h = h

  prompts-IsChecked :
      (lines : List Bytes) (at : Prompt) (p : Params)
      → IsChecked found at p
      → IsChecked found (prompts found lines (at, p)).0 (prompts found lines (at, p)).1
  unfolding prompts
  prompts-IsChecked [] at p h = h
  prompts-IsChecked (line ∷ lines) at p h =
      prompts-IsChecked lines (take_input found at (entered line) p).0
        (take_input found at (entered line) p).1 (take_input-IsChecked at (entered line) p h)

  create_run_prompt-IsChecked :
      (lines : List Bytes) (p : Params)
      → IsChecked found (create_run_prompt found lines p).0 (create_run_prompt found lines p).1
  unfolding create_run_prompt
  create_run_prompt-IsChecked lines p = prompts-IsChecked lines config_file p tt

  -- Where the prompts end with success, whatever lines have been given before: the path of the
  -- configuration file is free and its directory writable, the user and the group exist, the mount
  -- point is a directory or has been made; the database's user exists already exactly where none
  -- is to be created, and where one is the two passwords kept are the same; and the query for the
  -- database has found none of that name.
  pub create_run_prompt-IsReady :
      (lines : List Bytes) (p : Params)
      → (create_run_prompt found lines p).0 ≡ result true
      → IsReady found (create_run_prompt found lines p).1
  create_run_prompt-IsReady lines p ended =
      subst (λ at. IsChecked found at (create_run_prompt found lines p).1) ended
        (create_run_prompt-IsChecked lines p)
