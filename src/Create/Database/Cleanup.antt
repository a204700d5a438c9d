-- ===== src/Create/Database/Cleanup.antt =====
-- What is left behind when the set-up fails.
use myfs.Base.{
  ◌≡◌, refl, inl, inr, Bool, true, false, Bool-cases, none, some, ◌++◌, Bytes, codes, if◌then◌else◌,
}
use myfs.Config.Number.{ℤ}
use myfs.Create.{Params}
use myfs.Create.Sql.{sql_database}
use myfs.Create.ConfigFile.{config_text}
use myfs.Create.Database.{
  Setup, run_all, setup_sqls, create_config, create_database, create_cleanup, create_from,
}

module _ {S : Type 0} (query : Bytes → S → Bool × S) where
  -- Whether the state has come from sending the text DROP DATABASE 'name', with single quotes.
  abbrev pub IsDropSent : Params → S → Type 0
  IsDropSent p s =
      (before : S) × (s
        ≡ (query (codes "DROP DATABASE '" ++ (p.mariadb_database ++ codes "'")) before).1)

  create_database-file : (u : Setup S) → (create_database query u).1.file ≡ u.file
  unfolding create_database
  create_database-file u =
      elim (Bool-cases (query (sql_database u.params.mariadb_database) u.server).0) [
        | inl made ↦
            elim (Bool-cases
              (run_all query (setup_sqls u.params)
                (query (sql_database u.params.mariadb_database) u.server).1).0) [
                  | inl ran ↦ rw (made, ran) refl
                  | inr failed ↦ rw (made, failed) refl
                ]
        | inr failed ↦ rw failed refl
      ]

  create_database-config_created :
      (u : Setup S) → (create_database query u).1.params.config_created ≡ u.params.config_created
  unfolding create_database
  create_database-config_created u =
      elim (Bool-cases (query (sql_database u.params.mariadb_database) u.server).0) [
        | inl made ↦
            elim (Bool-cases
              (run_all query (setup_sqls u.params)
                (query (sql_database u.params.mariadb_database) u.server).1).0) [
                  | inl ran ↦ rw (made, ran) refl
                  | inr failed ↦ rw (made, failed) refl
                ]
        | inr failed ↦ rw failed refl
      ]

  -- Where there is no configuration file before and the one that is written can be deleted, it is
  -- there afterwards exactly where the set-up reports success, and holds the settings.
  pub create_from-file :
      (can_open prompted : Bool) (count wait : ℤ) (u : Setup S)
      → u.params.config_created ≡ false
      → u.file ≡ none
      → (create_from query can_open true prompted count wait u).1.file ≡ (
          if (create_from query can_open true prompted count wait u).0
          then some (config_text count wait u.params)
          else none)
  unfolding create_from create_config create_cleanup
  create_from-file can_open false count wait u fresh empty = rw (fresh, empty) refl
  create_from-file false true count wait u fresh empty = rw (fresh, empty) refl
  create_from-file true true count wait u fresh empty =
      let u1 : Setup S = (create_config true count wait u).1 in
      elim (Bool-cases (create_database query u1).0) [
        | inl made ↦ rw made (create_database-file u1)
        | inr failed ↦ rw (failed, create_database-config_created u1) refl
      ]

  create_database-created :
      (u : Setup S)
      → (query (sql_database u.params.mariadb_database) u.server).0 ≡ true
      → ((create_database query u).1.params.database_created ≡ true)
        × ((create_database query u).1.params.mariadb_database ≡ u.params.mariadb_database)
  unfolding create_database
  create_database-created u made =
      elim (Bool-cases
        (run_all query (setup_sqls u.params)
          (query (sql_database u.params.mariadb_database) u.server).1).0) [
            | inl ran ↦ rw (made, ran) (refl, refl)
            | inr failed ↦ rw (made, failed) (refl, refl)
          ]

  -- Where the prompts and the file have succeeded and the database has been created, but the set-up
  -- reports a failure, the last query that is sent has the text DROP DATABASE 'name', with the name
  -- of that database in single quotes.
  pub create_from-IsDropSent :
      (can_unlink : Bool) (count wait : ℤ) (u : Setup S)
      → (query (sql_database u.params.mariadb_database) u.server).0 ≡ true
      → (create_from query true can_unlink true count wait u).0 ≡ false
      → IsDropSent u.params (create_from query true can_unlink true count wait u).1.server
  unfolding create_from create_config create_cleanup
  create_from-IsDropSent can_unlink count wait u made failed =
      let u1 : Setup S = (create_config true count wait u).1 in
      let created = create_database-created u1 made in
      ((create_database query u1).1.server, rw (failed, created.0, created.1) refl)
