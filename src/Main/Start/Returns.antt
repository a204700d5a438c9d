-- ===== src/Main/Start/Returns.antt =====
-- `myfs_connect` of src/myfs/myfs.c comes to an end.
use myfs.Base.{
  ℕ, ◌≡◌, refl, inl, inr, Bool, true, false, Option, none, some, Option-cases, List, [], ◌∷◌, Bytes,
  codes,
}
use myfs.Sql.{done}
use myfs.Db.{Client, Retry, Db, db_connect, db_set_failed_query_options, db_select, db_query}
use myfs.Db.Returns.{Passes, Ends, db_query_returns}
use myfs.Config.{Config, config_get_int}
use myfs.Main.Start.{retry_of, Link, take_variable, myfs_connect}

-- The retries that the parameters ask for.
abbrev pub retry_settings : {H : Type 0} → List (Config H) → Retry
retry_settings configs = record {
  wait = retry_of (config_get_int (codes "failed_query_retry_wait") configs);
  limit = retry_of (config_get_int (codes "failed_query_retry_count") configs);
}

module _ {T : Type 0} {R : T → Type 0} (m : Client T R) (show : T)
    (value : R show → Option Bytes) where
  db_select_returns :
      (fuel : ℕ) (d : Db m) (success : Bool)
      → (db_query m fuel show d).0 ≡ done success
      → (rows : Option (List (R show))) × ((db_select m fuel show d).0 ≡ done rows)
  unfolding db_select
  db_select_returns fuel d false h = (none, rw (db_select, h) refl)
  db_select_returns fuel d true h =
      elim (Option-cases (m.store_result show (db_query m fuel show d).1.mysql).0) [
        | inl e ↦ (none, rw (db_select, h, e) refl)
        | inr (rows, e) ↦ (some rows, rw (db_select, h, e) refl)
      ]

  take_variable_returns :
      (rows : Option (List (R show))) (l : Link m show value)
      → (success : Bool) × ((take_variable m show value (done rows) l).0 ≡ done success)
  unfolding take_variable
  take_variable_returns none l = (false, refl)
  take_variable_returns (some []) l = (false, refl)
  take_variable_returns (some (row ∷ rows)) l = elim (Option-cases (value row)) [
    | inl e ↦ (false, rw (take_variable, e) refl)
    | inr (text, e) ↦ (true, rw (take_variable, e) refl)
  ]

  -- Where time goes on, and the parameters ask for no retries or limit them, connecting returns for
  -- some fuel, whatever the server answers.
  pub myfs_connect_returns :
      {H : Type 0} (connected : Bool) (s : m.State) (configs : List (Config H))
      (l : Link m show value)
      → Passes m
      → Ends m (retry_settings configs)
      → (fuel : ℕ) × (success : Bool) × ((myfs_connect m show value fuel connected s configs l).0
          ≡ done success)
  unfolding myfs_connect db_connect db_set_failed_query_options
  myfs_connect_returns false s configs l passes ends = (0, false, refl)
  myfs_connect_returns true s configs l passes ends =
      let d : Db m = record l.db { mysql = s; retry = retry_settings configs } in
      let (fuel, success, e) = db_query_returns m passes show d ends in
      let (rows, e') = db_select_returns fuel d success e in
      let (result, e'') =
        take_variable_returns rows (record l { db = (db_select m fuel show d).1 }) in
      (fuel, result, rw e' e'')
