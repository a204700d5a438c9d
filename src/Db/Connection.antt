-- ===== src/Db/Connection.antt =====
-- The connection of the file store: src/common/db.c over MariaDB's client library, with its retries,
-- where these end. A query is given the fuel with which it returns.
pub mod Served
pub mod Tables
use mathlib.Core.Path.{subst}
use mathlib.Core.Option.{some-injective}
use myfs.Base.{
  ℕ, zero, suc, ◌+◌, ◌≤◌, ◌≡◌, refl, ap, sym, ◌∙◌, ◌⊎◌, inl, inr, Bool, true, false, Bool-cases,
  Option, none, some, Option-cases, List, Bytes,
}
use myfs.Sql.{Sql, Statement, rollback, insert_file, Select, Row, Outcome, done}
use myfs.Sql.Tables.{Collation, effect, Answer}
use myfs.Sql.Keys.{accepts}
use myfs.Sql.Laws.{View, after, Documented}
use myfs.Db.{Client, Retry, Db, db_query, db_select, with_error}
use myfs.Db.Tries.{Tries, slept, last_try, failed_try, query_timed-Tried}
use myfs.Db.Returns.{Passes, Ends, db_query_returns}

-- A query text of the file store: a statement, or one that returns rows.
pub data Text : Type 0 where
  command : Statement → Text
  question : Select → Text

abbrev pub RowOf : Text → Type 0
RowOf (command st) = Unit {0}
RowOf (question q) = Row q

module _ (m : Client Text RowOf) where
  -- `mysql` and `error` of `db_t`; the settings stay as they are.
  pub record Session : Type 0 where
    pub mysql : m.State
    pub error : Bytes

  module _ (passes : Passes m) (retry : Retry) (ends : Ends m retry) where
    abbrev pub as_db : Session → Db m
    as_db s = record { mysql = s.mysql; retry = retry; error = s.error }

    abbrev pub as_session : Db m → Session
    as_session db = record { mysql = db.mysql; error = db.error }

    -- The fuel with which the query returns.
    unfoldable pub fuel_of : Text → Session → ℕ
    fuel_of query s = (db_query_returns m passes query (as_db s) ends).0

    unfoldable pub run : Statement → Session → Bool × Session
    unfolding fuel_of
    run st s =
        let (fuel, success, e) = db_query_returns m passes (command st) (as_db s) ends in
        (success, as_session (db_query m fuel (command st) (as_db s)).1)

    unfoldable pub rows_of : {A : Type 0} → Outcome (Option A) → Option A
    rows_of (done rows) = rows
    rows_of _ = none

    unfoldable pub ask : (q : Select) → Session → Option (List (Row q)) × Session
    unfolding rows_of fuel_of
    ask q s =
        let r = db_select m (fuel_of (question q) s) (question q) (as_db s) in
        (rows_of r.0, as_session r.1)

    unfoldable pub connection : Sql
    unfolding run ask
    connection = record {
      State = Session;
      query = run;
      select = ask;
      insert_id = λ s. m.insert_id s.mysql;
    }
