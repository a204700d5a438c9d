-- ===== src/Create/Run/Success.antt =====
-- What `create_run` of src/myfs/create.c has done when it reports success.
use myfs.Base.{
  ◌≡◌, refl, ap, inl, inr, Bool, true, false, Bool-cases, Option, some, List, Bytes, codes,
}
use mathlib.Core.Path.{subst}
use myfs.Sql.{done, Outcome-cases}
use myfs.Config.Number.{ℤ}
use myfs.Config.{Config, config_get_int}
use myfs.Create.{Params}
use myfs.Create.Sql.{sql_database}
use myfs.Create.ConfigFile.{config_text}
use myfs.Create.Prompt.{Prompt, result, Found, create_run_prompt}
use myfs.Create.Prompt.Checks.{IsReady}
use myfs.Create.Prompt.Ready.{create_run_prompt-IsReady}
use myfs.Create.Database.{
  Setup, run_all, setup_sqls, create_config, create_database, create_cleanup, create_from,
}
use myfs.Create.Run.{params_of, create_rest, create_run}

module _ {S : Type 0} (query : Bytes → S → Bool × S) where
  -- A database that is set up: its parameters, and the file.
  abbrev IsSetUp : Params → ℤ → ℤ → Setup S → Type 0
  IsSetUp p count wait u =
      (u.params ≡ record p { config_created = true; database_created = true })
      × (u.file ≡ some (config_text count wait p))

  create_database-success :
      (u : Setup S)
      → (create_database query u).0 ≡ true
      → ((create_database query u).1.params ≡ record u.params { database_created = true })
        × ((create_database query u).1.file ≡ u.file)
  unfolding create_database
  create_database-success u h =
      elim (Bool-cases (query (sql_database u.params.mariadb_database) u.server).0) [
        | inl made ↦
            elim (Bool-cases
              (run_all query (setup_sqls u.params)
                (query (sql_database u.params.mariadb_database) u.server).1).0) [
                  | inl ran ↦ rw (made, ran) (refl, refl)
                  | inr failed ↦ cc (rw (made, failed) at h)
                ]
        | inr failed ↦ cc (rw failed at h)
      ]

  create_from-success :
      (can_open can_unlink prompted : Bool) (count wait : ℤ) (u : Setup S)
      → (create_from query can_open can_unlink prompted count wait u).0 ≡ true
      → (prompted ≡ true)
        × IsSetUp u.params count wait
            (create_from query can_open can_unlink prompted count wait u).1
  unfolding create_from create_config create_cleanup
  create_from-success can_open can_unlink false count wait u h = cc
  create_from-success false can_unlink true count wait u h = cc
  create_from-success true can_unlink true count wait u h =
      let made = create_database-success (create_config true count wait u).1 h in (refl, rw h made)

  create_rest-success :
      (can_open can_unlink : Bool) (count wait : ℤ) (server : S) (file : Option Bytes)
      (r : Prompt × Params) {u : Setup S}
      → create_rest query can_open can_unlink count wait server file r ≡ done (true, u)
      → (r.0 ≡ result true) × IsSetUp r.1 count wait u
  unfolding create_rest
  create_rest-success can_open can_unlink count wait server file (result success, p) {u} h =
      let start : Setup S = record { params = p; server = server; file = file } in
      let e : create_from query can_open can_unlink success count wait start ≡ (true, u) = cc in
      let s = create_from-success can_open can_unlink success count wait start (ap (λ x. x.0) e) in
      (ap result s.0, subst (IsSetUp p count wait) (ap (λ x. x.1) e) s.1)
  create_rest-success can_open can_unlink count wait server file (at, p) h = cc

  module _ {H : Type 0} (found : Found) where
    -- Where the set-up reports success, all that the prompts check holds of the parameters it ends
    -- with, and the configuration file holds the settings of these parameters.
    pub create_run-success :
        (can_open can_unlink : Bool) (lines : List Bytes) (configs : List (Config H)) (server : S)
        (file : Option Bytes) {u : Setup S}
        → create_run query can_open can_unlink found lines configs server file ≡ done (true, u)
        → IsReady found u.params
          × (u.file
              ≡ some (
                  config_text
                    (config_get_int (codes "failed_query_retry_count") configs)
                    (config_get_int (codes "failed_query_retry_wait") configs)
                    u.params))
    unfolding create_run config_text
    create_run-success can_open can_unlink lines configs server file {u} h =
        elim (Outcome-cases (params_of configs)) [
          | inr (inr (p, e)) ↦
              let count = config_get_int (codes "failed_query_retry_count") configs in
              let wait = config_get_int (codes "failed_query_retry_wait") configs in
              let s =
                create_rest-success can_open can_unlink count wait server file
                  (create_run_prompt found lines p) (rw e at h) in
              let ready = create_run_prompt-IsReady found lines p s.0 in rw (s.1.0) (ready, s.1.1)
          | inl e ↦ cc (rw e at h)
          | inr (inl e) ↦ cc (rw e at h)
        ]
