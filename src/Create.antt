-- ===== src/Create.antt =====
-- src/myfs/create.c: the set-up of a database, from the prompts to the cleanup.
pub mod Sql
pub mod ConfigFile
pub mod Database
pub mod ReadBack
pub mod Prompt
pub mod Run
use myfs.Base.{ℕ, Bool, true, false, Option, none, some, List, [], ◌∷◌, Bytes}

-- `create_params_t`, without the connection.
pub record Params : Type 0 where
  pub config_path : Bytes
  pub mariadb_host : Bytes
  pub mariadb_user_root : Bytes
  pub mariadb_user : Bytes
  pub mariadb_password_root : Bytes
  pub mariadb_password1 : Bytes
  pub mariadb_password2 : Bytes
  pub mariadb_user_host : Bytes
  pub mariadb_database : Bytes
  pub mariadb_port : Bytes
  pub mount : Bytes
  pub user : Bytes
  pub group : Bytes
  pub create_database_user : Bool
  pub config_created : Bool
  pub database_created : Bool
