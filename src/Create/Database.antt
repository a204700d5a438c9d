-- ===== src/Create/Database.antt =====
-- `create_run_create_config`, `create_run_create_database`, `create_cleanup` and the order in which
-- `create_run` of src/myfs/create.c calls them.
pub mod Cleanup
use myfs.Base.{
  ℕ, Bool, true, false, ◌&&◌, Option, none, some, List, [], ◌∷◌, ◌++◌, Bytes, codes, if◌then◌else◌,
}
use myfs.Config.Number.{ℤ}
use myfs.Create.{Params}
use myfs.Create.Sql.{
  sql_database, sql_table1, sql_table2, sql_table3, sql_insert1, sql_insert2, sql_insert3,
  sql_user_create, sql_user_grant1, sql_user_grant2,
}
use myfs.Create.ConfigFile.{config_text}

abbrev user_sqls : Params → List Bytes
user_sqls p =
    if p.create_database_user
    then sql_user_create p.mariadb_user p.mariadb_user_host p.mariadb_password1 ∷ []
    else []

-- The queries between the creation of the database and FLUSH PRIVILEGES.
unfoldable pub setup_sqls : Params → List Bytes
setup_sqls p =
    (codes "USE `" ++ (p.mariadb_database ++ codes "`"))
    ∷ sql_table1
    ∷ sql_table2
    ∷ sql_table3
    ∷ sql_insert1
    ∷ sql_insert2 p.user p.group
    ∷ sql_insert3
    ∷ (user_sqls p
        ++ (sql_user_grant1 p.mariadb_user p.mariadb_host p.mariadb_database
            ∷ sql_user_grant2 p.mariadb_user p.mariadb_host p.mariadb_database
            ∷ []))

-- The parameters, the server, and the content of the file at `config_path`.
pub record Setup (S : Type 0) : Type 0 where
  pub params : Params
  pub server : S
  pub file : Option Bytes

module _ {S : Type 0} where
  -- `can_open` is whether the file can be opened for writing. The results of fprintf and fclose are
  -- not looked at; they are taken to succeed.
  unfoldable pub create_config : Bool → ℤ → ℤ → Setup S → Bool × Setup S
  create_config can_open count wait u =
      if can_open
      then (
        true,
        record u {
          file = some (config_text count wait u.params);
          params = record u.params { config_created = true };
        },
      )
      else (false, u)

  -- `query` is db_queryf on the connection of the super user.
  module _ (query : Bytes → S → Bool × S) where
    -- The queries, up to the first that fails.
    unfoldable pub run_all : List Bytes → S → Bool × S
    run_all [] s = (true, s)
    run_all (sql ∷ sqls) s =
        let (ok, s') = query sql s in elim ok [ true ↦ run_all sqls s' | false ↦ (false, s') ]

    unfoldable pub create_database : Setup S → Bool × Setup S
    unfolding run_all setup_sqls
    create_database u =
        let (ok, s1) = query (sql_database u.params.mariadb_database) u.server in
        let u' = record u { params = record u.params { database_created = true } } in
        let (done, s2) = run_all (setup_sqls u.params) s1 in
        let (flushed, s3) = query (codes "FLUSH PRIVILEGES") s2 in
        if ok
        then (if done
            then (true, record u' { server = s3 })
            else (false, record u' { server = s2 }))
        else (false, record u { server = s1 })

    -- `can_unlink` is whether the file can be deleted.
    unfoldable pub create_cleanup : Bool → Bool → Setup S → Setup S
    create_cleanup can_unlink true u = u
    create_cleanup can_unlink false u = record u {
      file = if u.params.config_created && can_unlink then none else u.file;
      server =
          if u.params.database_created
          then (query (codes "DROP DATABASE '" ++ (u.params.mariadb_database ++ codes "'"))
              u.server).1
          else u.server;
    }

    -- create_run, from the result of the prompts on.
    unfoldable pub create_from : Bool → Bool → Bool → ℤ → ℤ → Setup S → Bool × Setup S
    unfolding create_config create_database create_cleanup
    create_from can_open can_unlink prompted count wait u =
        let (ok1, u1) = create_config can_open count wait u in
        let (ok2, u2) = create_database u1 in
        if prompted
        then (if ok1
            then (ok2, create_cleanup can_unlink ok2 u2)
            else (false, create_cleanup can_unlink false u1))
        else (false, create_cleanup can_unlink false u)
