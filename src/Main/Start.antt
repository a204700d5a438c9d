-- ===== src/Main/Start.antt =====
-- `myfs_connect` of src/myfs/myfs.c, with the parameters that it is given.
pub mod Returns
use myfs.Base.{ℕ, ◌≡◌, Bool, true, false, Option, none, some, List, [], ◌∷◌, Bytes, codes}
use myfs.Sql.{Outcome, done, fault, running}
use myfs.Db.{Client, Db, db_connect, db_set_failed_query_options, db_select}
use myfs.Config.{Config, config_get_int}
use myfs.Config.Number.{ℤ, pos, negsuc, strtoul32}

-- -1 is none; check_config refuses every other negative number.
unfoldable pub retry_of : ℤ → Option ℕ
retry_of (pos n) = some n
retry_of (negsuc n) = none

-- `show` is the query for the variable, and `value` the second column of a row, `none` for NULL.
module _ {T : Type 0} {R : T → Type 0} (m : Client T R) (show : T)
    (value : R show → Option Bytes) where
  -- `myfs_t`, without the open files.
  pub record Link : Type 0 where
    pub db : Db m
    pub max_allowed_packet : ℕ

  unfoldable take_variable : Outcome (Option (List (R show))) → Link → Outcome Bool × Link
  unfolding strtoul32
  take_variable (done none) l = (done false, l)
  take_variable (done (some [])) l = (done false, l)
  take_variable (done (some (row ∷ rows))) l = elim (value row) [
    | none ↦ (done false, l)
    | some text ↦ (done true, record l { max_allowed_packet = strtoul32 text })
  ]
  take_variable fault l = (fault, l)
  take_variable running l = (running, l)

  -- `connected` is whether mysql_real_connect gives a connection, and `s` the handle after it.
  unfoldable pub myfs_connect :
      {H : Type 0} → ℕ → Bool → m.State → List (Config H) → Link → Outcome Bool × Link
  unfolding db_connect db_set_failed_query_options db_select config_get_int retry_of take_variable
  myfs_connect fuel connected s configs l =
      let (ok, d) = db_connect m connected s l.db in
      elim ok [
        | false ↦ (done false, record l { db = d })
        | true ↦
            let wait = retry_of (config_get_int (codes "failed_query_retry_wait") configs) in
            let count = retry_of (config_get_int (codes "failed_query_retry_count") configs) in
            let (rows, d') = db_select m fuel show (db_set_failed_query_options m wait count d) in
            take_variable rows (record l { db = d' })
      ]
