-- ===== src/Create/Prompt.antt =====
-- `create_run_prompt` of src/myfs/create.c, as the prompt it waits at and what an answer makes of it.
pub mod Checks
pub mod Ready
use myfs.Base.{
  ℕ, ◌≡◌, Bool, true, false, not, ◌&&◌, ◌||◌, Option, none, some, List, [], ◌∷◌, Bytes, codes, ◌==◌,
  same_text, if◌then◌else◌,
}
use myfs.Text.Copy.{strlcpy, string_of}
use myfs.Text.Path.{util_dirname}
use myfs.Text.Suffix.{str_ends_with}
use myfs.Config.Number.{strtoul32}
use myfs.Create.{Params}

-- The calls of util_create_prompt and of util_create_prompt_password, in order, and the results.
pub data Prompt : Type 0 where
  config_file linux_user linux_group mount_point : Prompt
  super_host super_port super_user super_password : Prompt
  create_user database_user user_host password confirm_password : Prompt
  database continue : Prompt
  result : Bool → Prompt

-- What the checks find while the questions are answered: access(F_OK) and access(W_OK); whether
-- there is such a user and such a group; what stat finds at a path, and whether that is a directory;
-- whether mkdir makes one; whether db_connect connects; db_user_exists and db_database_exists, where
-- `none` is that the query fails.
pub record Found : Type 0 where
  pub exists : Bytes → Bool
  pub writable : Bytes → Bool
  pub user_exists : Bytes → Bool
  pub group_exists : Bytes → Bool
  pub directory : Bytes → Option Bool
  pub made : Bytes → Bool
  pub connected : Bytes → Bytes → Bytes → ℕ → Bool
  pub database_user_exists : Bytes → Bytes → Option Bool
  pub database_exists : Bytes → Option Bool

-- The string in `input` after fgets has given `line`: up to the end of the line.
unfoldable pub entered : Bytes → Bytes
entered [] = []
entered (c ∷ line) = if (c == b'\n') || (c == 0) then [] else c ∷ entered line

abbrev pub is_empty : Bytes → Bool
is_empty [] = true
is_empty (c ∷ s) = false

unfoldable pub copied : ℕ → Bytes → Bytes
unfolding strlcpy string_of
copied size input = string_of (strlcpy size input).0

-- An empty answer keeps the value; `size` is the size of the field.
unfoldable pub changed : ℕ → Bytes → Bytes → Bytes
unfolding copied
changed size input value = if is_empty input then value else copied size input

unfoldable pub is_yes : Bytes → Bool
is_yes input = same_text input (codes "y")

module _ (found : Found) where
  unfoldable pub path_accepted : Bytes → Bool
  unfolding util_dirname
  path_accepted path = not (found.exists path) && found.writable (util_dirname path 896)

  unfoldable pub mount_accepted : Bytes → Bool
  mount_accepted path = elim (found.directory path) [
    | some is_directory ↦ is_directory
    | none ↦ found.made path
  ]

  unfoldable pub take_config_file : Bytes → Params → Prompt × Params
  unfolding changed path_accepted str_ends_with
  take_config_file input p =
      if not (is_empty input) && not (str_ends_with input (codes ".conf"))
      then (config_file, p)
      else (let p' = record p { config_path = changed 1024 input p.config_path } in
          (if path_accepted p'.config_path then linux_user else config_file, p'))

  unfoldable pub take_user : Bytes → Params → Prompt × Params
  unfolding changed
  take_user input p =
      let p' = record p { user = changed 33 input p.user } in
      (if found.user_exists p'.user then linux_group else linux_user, p')

  unfoldable pub take_group : Bytes → Params → Prompt × Params
  unfolding changed
  take_group input p =
      let p' = record p { group = changed 33 input p.group } in
      (if found.group_exists p'.group then mount_point else linux_group, p')

  unfoldable pub take_mount : Bytes → Params → Prompt × Params
  unfolding changed mount_accepted
  take_mount input p =
      let p' = record p { mount = changed 1024 input p.mount } in
      (if mount_accepted p'.mount then super_host else mount_point, p')

  -- The connection of the super user.
  unfoldable pub take_super_password : Bytes → Params → Prompt × Params
  unfolding copied strtoul32
  take_super_password input p =
      let p' = record p { mariadb_password_root = copied 128 input } in
      (
        if is_empty p'.mariadb_password_root
            then super_password
            else (if found.connected p.mariadb_host p.mariadb_user_root p'.mariadb_password_root
                  (strtoul32 p.mariadb_port)
                then create_user
                else super_host),
        p',
      )

  -- Where the queries fail, the prompts end.
  unfoldable pub take_user_host : Bytes → Params → Prompt × Params
  unfolding changed
  take_user_host input p =
      let p' = record p { mariadb_user_host = changed 512 input p.mariadb_user_host } in
      (
        elim (found.database_user_exists p'.mariadb_user p'.mariadb_user_host) [
          | none ↦ result false
          | some exists ↦
              if p.create_database_user
              then (if exists then create_user else password)
              else (if exists then database else create_user)
        ],
        p',
      )

  unfoldable pub take_password : Bytes → Params → Prompt × Params
  unfolding copied
  take_password input p = (
    if is_empty input then password else confirm_password,
    record p { mariadb_password1 = copied 128 input },
  )

  unfoldable pub take_confirmation : Bytes → Params → Prompt × Params
  unfolding copied
  take_confirmation input p =
      let p' = record p { mariadb_password2 = copied 128 input } in
      (
        if is_empty input
            then confirm_password
            else (if same_text p.mariadb_password1 p'.mariadb_password2
                then database
                else password),
        p',
      )

  unfoldable pub take_database : Bytes → Params → Prompt × Params
  unfolding changed
  take_database input p =
      let p' = record p { mariadb_database = changed 128 input p.mariadb_database } in
      (
        elim (found.database_exists p'.mariadb_database) [
          | none ↦ result false
          | some exists ↦ if exists then database else continue
        ],
        p',
      )

  -- The answer to a prompt: the next prompt, and the parameters.
  unfoldable pub take_input : Prompt → Bytes → Params → Prompt × Params
  unfolding take_config_file take_user take_group take_mount take_super_password take_user_host
      take_password take_confirmation take_database changed is_yes
  take_input config_file input p = take_config_file input p
  take_input linux_user input p = take_user input p
  take_input linux_group input p = take_group input p
  take_input mount_point input p = take_mount input p
  take_input super_host input p =
      (super_port, record p { mariadb_host = changed 512 input p.mariadb_host })
  take_input super_port input p =
      (super_user, record p { mariadb_port = changed 8 input p.mariadb_port })
  take_input super_user input p = (
    super_password,
    record p {
      mariadb_user_root = changed 128 input p.mariadb_user_root;
      mariadb_password_root = [];
    },
  )
  take_input super_password input p = take_super_password input p
  take_input create_user input p = (database_user, record p { create_database_user = is_yes input })
  take_input database_user input p =
      (user_host, record p { mariadb_user = changed 128 input p.mariadb_user })
  take_input user_host input p = take_user_host input p
  take_input password input p = take_password input p
  take_input confirm_password input p = take_confirmation input p
  take_input database input p = take_database input p
  take_input continue input p = (if is_empty input then continue else result (is_yes input), p)
  take_input (result success) input p = (result success, p)

  -- The prompts after the lines that have been given: `result` where they have ended, and else the
  -- prompt that waits.
  unfoldable pub prompts : List Bytes → Prompt × Params → Prompt × Params
  unfolding take_input entered
  prompts [] (at, p) = (at, p)
  prompts (line ∷ lines) (at, p) = prompts lines (take_input at (entered line) p)

  unfoldable pub create_run_prompt : List Bytes → Params → Prompt × Params
  unfolding prompts
  create_run_prompt lines p = prompts lines (config_file, p)
