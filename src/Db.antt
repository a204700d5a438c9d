-- ===== src/Db.antt =====
-- src/common/db.c: the connection to MariaDB, over what it calls of MariaDB's client library and of
-- the system.
pub mod Tries
pub mod Returns
pub mod Connection
use myfs.Base.{
  ◌∷◌, [], ℕ, zero, suc, ◌+◌, Bool, true, false, Option, none, some, List, Bytes, ltb, leb, take,
}
use myfs.Sql.{Outcome, done, fault, running, ◌>>=◌}

-- `T` is the type of the query texts, `R` that of the rows which the answer to a text has. The
-- state is that of the `MYSQL` handle, with the server behind it, and of the clock.
pub record Client (T : Type 0) (R : T → Type 0) : Type 1 where
  pub State : Type 0
  -- mysql_real_query: whether it returns 0
  pub real_query : T → State → Bool × State
  -- mysql_store_result: `none` for NULL
  pub store_result : (q : T) → State → Option (List (R q)) × State
  -- mysql_error
  pub error : State → Bytes
  -- mysql_insert_id
  pub insert_id : State → ℕ
  -- time(NULL)
  pub time : State → ℕ
  -- usleep(1000 * 50)
  pub sleep : State → State

-- The settings of `db_set_failed_query_options`; `none` is -1.
pub record Retry : Type 0 where
  pub wait : Option ℕ
  pub limit : Option ℕ

-- The size of `error` in `db_t`, less the terminator.
abbrev pub error_max : ℕ
error_max = 255

abbrev any_row : {A : Type 0} → List A → Outcome Bool
any_row [] = done false
any_row (row ∷ rows) = done true

-- The first row is read without a test that there is one.
abbrev counted : {A : Type 0} → (A → ℕ) → List A → Outcome Bool
counted count [] = fault
counted count (row ∷ rows) = done (ltb 0 (count row))

-- What the rows say, where there are any: `none` for the failure of the query.
unfoldable found_rows :
    {A : Type 0} → (List A → Outcome Bool) → Outcome (Option (List A)) → Outcome (Option Bool)
found_rows test (done none) = done none
found_rows test (done (some rows)) = do exists ← test rows; done (some exists)
found_rows test fault = fault
found_rows test running = running

module _ {T : Type 0} {R : T → Type 0} (m : Client T R) where
  -- `db_t`
  pub record Db : Type 0 where
    pub mysql : m.State
    pub retry : Retry
    pub error : Bytes

  -- The query has failed for good.
  abbrev pub with_error : Db → m.State → Db
  with_error d s = record d { mysql = s; error = take error_max (m.error s) }

  -- The loop of db_query_timed, from the test of the timer on.
  unfoldable pub query_timed : ℕ → T → ℕ → ℕ → Db → Outcome Bool × Db
  query_timed zero query next_try count d = (running, d)
  query_timed (suc fuel) query next_try count d = elim (ltb (m.time d.mysql) next_try) [
    | true ↦ query_timed fuel query next_try count (record d { mysql = m.sleep d.mysql })
    | false ↦
        let (success, s) = m.real_query query d.mysql in
        elim success [
          | true ↦ (done true, record d { mysql = s; error = [] })
          | false ↦ elim d.retry.wait [
            | none ↦ (done false, with_error d s)
            | some wait ↦ elim d.retry.limit [
              | none ↦ query_timed fuel query (m.time s + wait) count (record d { mysql = s })
              | some limit ↦ elim (leb limit (count + 1)) [
                | true ↦ (done false, with_error d s)
                | false ↦
                    query_timed fuel query (m.time s + wait) (count + 1) (record d { mysql = s })
              ]
            ]
          ]
        ]
  ]

  -- db_query, db_queryf
  unfoldable pub db_query : ℕ → T → Db → Outcome Bool × Db
  unfolding query_timed
  db_query fuel query d = query_timed fuel query 0 0 d

  -- db_select, db_selectf: `none` for NULL
  unfoldable pub db_select : ℕ → (q : T) → Db → Outcome (Option (List (R q))) × Db
  unfolding db_query
  db_select fuel q d =
      let (r, d') = db_query fuel q d in
      let (rows, s) = m.store_result q d'.mysql in
      elim r [
        | done true ↦ elim rows [
          | none ↦ (done none, with_error d' s)
          | some rs ↦ (done (some rs), record d' { mysql = s })
        ]
        | done false ↦ (done none, d')
        | fault ↦ (fault, d')
        | running ↦ (running, d')
      ]

  unfoldable pub db_insert_id : Db → ℕ
  db_insert_id d = m.insert_id d.mysql

  -- db_connect, from the result of mysql_real_connect
  unfoldable pub db_connect : Bool → m.State → Db → Bool × Db
  db_connect true s d = (true, record d { mysql = s; retry = record { wait = none; limit = none } })
  db_connect false s d =
      (false, with_error (record d { retry = record { wait = none; limit = none } }) s)

  unfoldable pub db_set_failed_query_options : Option ℕ → Option ℕ → Db → Db
  db_set_failed_query_options retry_wait retry_count d = record d {
    retry = record { wait = retry_wait; limit = retry_count };
  }

  -- `q` is SHOW DATABASES LIKE with the name.
  unfoldable pub db_database_exists : ℕ → T → Db → Outcome (Option Bool) × Db
  unfolding db_select found_rows
  db_database_exists fuel q d = let (rows, d') = db_select fuel q d in (found_rows any_row rows, d')

  -- `q` counts the users of the name at the host, and `count` is strtoul of the row's column.
  unfoldable pub db_user_exists : ℕ → (q : T) → (R q → ℕ) → Db → Outcome (Option Bool) × Db
  unfolding db_select found_rows
  db_user_exists fuel q count d =
      let (rows, d') = db_select fuel q d in (found_rows (counted count) rows, d')
