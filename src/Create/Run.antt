-- ===== src/Create/Run.antt =====
-- `create_run` of src/myfs/create.c.
pub mod Success
use myfs.Base.{
  ℕ, Bool, true, false, Option, none, some, List, [], ◌∷◌, Bytes, codes, length, ltb, if◌then◌else◌,
}
use myfs.Sql.{Outcome, done, fault, running, ◌>>=◌}
use myfs.Config.{Config, config_get, config_get_int}
use myfs.Config.Number.{ℤ}
use myfs.Create.{Params}
use myfs.Create.Prompt.{Prompt, result, Found, create_run_prompt}
use myfs.Create.Database.{Setup, create_from}

module _ {H : Type 0} where
  -- strcpy of a parameter into a field: a parameter without a value, and a value too long for the
  -- field, are what C leaves undefined.
  strcpy_config : List (Config H) → Bytes → ℕ → Outcome Bytes
  unfolding config_get
  strcpy_config configs name size = elim (config_get name configs) [
    | none ↦ fault
    | some value ↦ if ltb (length value) size then done value else fault
  ]

  -- The parameters before the prompts.
  unfoldable pub params_of : List (Config H) → Outcome Params
  unfolding strcpy_config
  params_of configs = do
    host ← strcpy_config configs (codes "mariadb_host") 512
    account ← strcpy_config configs (codes "mariadb_user") 128
    base ← strcpy_config configs (codes "mariadb_database") 128
    port ← strcpy_config configs (codes "mariadb_port") 8
    mount ← strcpy_config configs (codes "mount") 1024
    user ← strcpy_config configs (codes "user") 33
    group ← strcpy_config configs (codes "group") 33
    done record {
      config_path = codes "/etc/myfs.d/myfs.conf";
      mariadb_host = host;
      mariadb_user_root = codes "root";
      mariadb_user = account;
      mariadb_password_root = [];
      mariadb_password1 = [];
      mariadb_password2 = [];
      mariadb_user_host = codes "%";
      mariadb_database = base;
      mariadb_port = port;
      mount = mount;
      user = user;
      group = group;
      create_database_user = false;
      config_created = false;
      database_created = false;
    }

module _ {S : Type 0} (query : Bytes → S → Bool × S) (can_open can_unlink : Bool) where
  -- After the prompts, where they have ended.
  unfoldable create_rest : ℤ → ℤ → S → Option Bytes → Prompt × Params → Outcome (Bool × Setup S)
  unfolding create_from
  create_rest count wait server file (result success, p) = done (
      create_from query can_open can_unlink success count wait
        (record { params = p; server = server; file = file }))
  create_rest count wait server file (at, p) = running

  module _ {H : Type 0} (found : Found) where
    -- `running` is that a prompt waits for input; `fault` what C leaves undefined. `file` is what
    -- the file holds before.
    unfoldable pub create_run :
        List Bytes → List (Config H) → S → Option Bytes → Outcome (Bool × Setup S)
    unfolding params_of create_run_prompt config_get_int create_rest
    create_run lines configs server file = do
      p ← params_of configs
      create_rest (config_get_int (codes "failed_query_retry_count") configs)
          (config_get_int (codes "failed_query_retry_wait") configs) server file
          (create_run_prompt found lines p)
