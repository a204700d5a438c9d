-- ===== src/Db/Connection/Tables.antt =====
-- The connection has the tables change, and answers, as the file store relies on.
use mathlib.Core.Path.{subst}
use mathlib.Core.Option.{some-injective}
use myfs.Base.{
  ℕ, ◌+◌, ◌≡◌, ap, sym, ◌∙◌, inl, inr, Bool, true, false, Bool-cases, some, Option-cases, List,
  Bytes,
}
use myfs.Sql.{Statement, insert_file, Select, Row, done}
use myfs.Sql.Tables.{Collation, Answer}
use myfs.Sql.Laws.{View, Documented}
use myfs.Db.{Client, Retry, Db, db_query, db_select}
use myfs.Db.Tries.{Tries, slept, last_try, failed_try, query_timed-Tried}
use myfs.Db.Returns.{Passes, Ends, db_query_returns}
use myfs.Db.Connection.{
  Text, command, question, RowOf, Session, as_db, fuel_of, rows_of, run, ask, connection,
}
use myfs.Db.Connection.Served.{
  Served, Stays, failed-AfterFailed, Kept, Kept-refl, Kept-trans, Kept-after, Kept-accepts,
  Kept-after_failed,
}

insert-Kept :
    (p : ℕ) (name type user group : Bytes) (mode : ℕ) (v v' : View)
    → Kept (command (insert_file p name type user group mode)) v v'
    → v' ≡ v
insert-Kept p name type user group mode v v' (inl e) = e
insert-Kept p name type user group mode v v' (inr e) = e

module _ (c : Collation) (m : Client Text RowOf) (d : Served c m) (stays : Stays c m d) where
  asked_view : (q : Select) (s : m.State) → d.view (m.real_query (question q) s).1 ≡ d.view s
  asked_view q s = elim (Bool-cases (m.real_query (question q) s).0) [
    | inl ok ↦ d.asked q s ok
    | inr failed ↦ stays.unanswered q s failed
  ]

  -- The state in which the last try is made.
  record Last (query : Text) (s : m.State) (success : Bool) (s' : m.State) : Type 0 where
    at : m.State
    sent : m.real_query query at ≡ (success, s')
    kept : Kept query (d.view s) (d.view at)

  failed_Kept :
      (query : Text) (s s1 : m.State)
      → m.real_query query s ≡ (false, s1)
      → Kept query (d.view s) (d.view s1)
  failed_Kept (command st) s s1 e = inr (
      ap (λ (x : Bool × m.State). d.view x.1) (sym e)
      ∙ stays.failed st s (ap (λ (x : Bool × m.State). x.0) e))
  failed_Kept (question q) s s1 e = ap (λ (x : Bool × m.State). d.view x.1) (sym e) ∙ asked_view q s

  last_of :
      {query : Text} {retry : Retry} {next_try n : ℕ} {s s' : m.State} {success : Bool}
      → Tries m retry query next_try n s success s'
      → Last query s success s'
  last_of {query} {s} (slept early t) =
      let l = last_of t in
      record {
        at = l.at;
        sent = l.sent;
        kept = subst (λ v. Kept query v (d.view l.at)) (d.slept s) l.kept;
      }
  last_of {query} (last_try success s' due e) = record {
    at = _;
    sent = e;
    kept = Kept-refl query _;
  }
  last_of {query} (failed_try wait s1 due e waits t) =
      let l = last_of t in
      record {
        at = l.at;
        sent = l.sent;
        kept = Kept-trans query _ _ _ (failed_Kept query _ s1 e) l.kept;
      }

  module _ (passes : Passes m) (retry : Retry) (ends : Ends m retry) where
    run-Last :
        (st : Statement) (s : Session m)
        → Last
            (command st)
            s.mysql
            (run m passes retry ends st s).0
            (run m passes retry ends st s).1.mysql
    unfolding run db_query
    run-Last st s =
        let (fuel, success, e) =
          db_query_returns m passes (command st) (as_db m passes retry ends s) ends in
        last_of
          (query_timed-Tried m fuel (command st) 0 0 (as_db m passes retry ends s) success e).tries

    module _ (q : Select) (s : Session m) where
      abbrev ret :
          (fuel : ℕ) × (success : Bool) × ((db_query m fuel
              (question q)
              (as_db m passes retry ends s)).0
            ≡ done success)
      ret = db_query_returns m passes (question q) (as_db m passes retry ends s) ends

      abbrev asked : Db m
      asked = (db_query m ret.0 (question q) (as_db m passes retry ends s)).1

      asked-Last : Last (question q) s.mysql ret.1 asked.mysql
      unfolding db_query
      asked-Last =
          last_of
            (query_timed-Tried m ret.0 (question q) 0 0 (as_db m passes retry ends s) ret.1
              ret.2).tries

      -- The result of `ask`, by that of the query.
      asked-view : d.view asked.mysql ≡ d.view s.mysql
      asked-view =
          let l = asked-Last in
          ap (λ (x : Bool × m.State). d.view x.1) (sym l.sent) ∙ asked_view q l.at ∙ l.kept

      by_result :
          (success : Bool)
          → (db_query m ret.0 (question q) (as_db m passes retry ends s)).0 ≡ done success
          → Last (question q) s.mysql success asked.mysql
          → (d.view (ask m passes retry ends q s).1.mysql ≡ d.view s.mysql)
            × ((rows : List (Row q))
                → (ask m passes retry ends q s).0 ≡ some rows
                → Answer c q (d.view s.mysql).tables rows)
      unfolding ask db_select rows_of fuel_of
      by_result false e l =
          (rw (ask, db_select, e) asked-view, λ rows got. cc (rw (ask, db_select, e) at got))
      by_result true e l = elim (Option-cases (m.store_result (question q) asked.mysql).0) [
        | inl lost ↦ (
          rw (ask, db_select, e, lost) (d.stored q asked.mysql ∙ asked-view),
          λ rows got. cc (rw (ask, db_select, e, lost) at got),
        )
        | inr (rows, there) ↦ (
          rw (ask, db_select, e, there) (d.stored q asked.mysql ∙ asked-view),
          λ rows' got.
              let same : rows ≡ rows' =
                some-injective rows rows' (rw (ask, db_select, e, there) at got) in
              subst (λ (v : View). Answer c q v.tables rows') l.kept
                (subst (λ x. Answer c q (d.view l.at).tables x) same
                  (d.answered q l.at rows (ap (λ (x : Bool × m.State). x.0) l.sent) (
                    ap (λ (x : Bool × m.State). (m.store_result (question q) x.1).0) l.sent
                    ∙ there))),
        )
      ]

      ask_lem :
          (d.view (ask m passes retry ends q s).1.mysql ≡ d.view s.mysql)
          × ((rows : List (Row q))
              → (ask m passes retry ends q s).0 ≡ some rows
              → Answer c q (d.view s.mysql).tables rows)
      ask_lem = by_result ret.1 ret.2 asked-Last

    run_view :
        (st : Statement) (s : Session m)
        → d.view (m.real_query (command st) (run-Last st s).at).1
          ≡ d.view (run m passes retry ends st s).1.mysql
    run_view st s = ap (λ (x : Bool × m.State). d.view x.1) (run-Last st s).sent

    run_sent :
        (st : Statement) (s : Session m) (success : Bool)
        → (run m passes retry ends st s).0 ≡ success
        → (m.real_query (command st) (run-Last st s).at).0 ≡ success
    run_sent st s success h = ap (λ (x : Bool × m.State). x.0) (run-Last st s).sent ∙ h

    -- Where each single try of a query that succeeds is as MariaDB documents it, no try that fails
    -- ends the transaction by a lost connection or a deadlock, time goes on, and the settings do not
    -- ask for retries without end: the connection with its retries is one that the file store can
    -- rely on, since a query that is tried again has its effect once or not at all.
    pub connection-Documented : Documented c (connection m passes retry ends)
    unfolding connection
    connection-Documented = record {
      view = λ s. d.view s.mysql;
      now = λ st s. d.now st (run-Last st s).at;
      skip = λ st s. d.skip st (run-Last st s).at;
      succeeded = λ st s h.
          sym (run_view st s)
          ∙ d.succeeded st (run-Last st s).at (run_sent st s true h)
          ∙ Kept-after c (d.now st (run-Last st s).at) (d.skip st (run-Last st s).at) st
              (d.view s.mysql) (d.view (run-Last st s).at) (run-Last st s).kept;
      allowed = λ st s h.
          sym (
            Kept-accepts c (d.skip st (run-Last st s).at) st (d.view s.mysql)
              (d.view (run-Last st s).at) (run-Last st s).kept)
          ∙ d.allowed st (run-Last st s).at (run_sent st s true h);
      failed = λ st s h.
          failed-AfterFailed st (d.view s.mysql) (d.view (run m passes retry ends st s).1.mysql) (
            sym (run_view st s)
            ∙ stays.failed st (run-Last st s).at (run_sent st s false h)
            ∙ Kept-after_failed st (d.view s.mysql) (d.view (run-Last st s).at)
                (run-Last st s).kept);
      unchanged = λ q s. (ask_lem q s).0;
      answered = λ q s rows got. (ask_lem q s).1 rows got;
      inserted = λ p name type user group mode s h.
          ap (λ (x : Bool × m.State). m.insert_id x.1)
            (sym (run-Last (insert_file p name type user group mode) s).sent)
          ∙ d.inserted p name type user group mode
              (run-Last (insert_file p name type user group mode) s).at
              (run_sent (insert_file p name type user group mode) s true h)
          ∙ ap
              (λ (v : View).
                v.tables.next_file
                + d.skip (insert_file p name type user group mode)
                    (run-Last (insert_file p name type user group mode) s).at)
              (insert-Kept p name type user group mode (d.view s.mysql)
                (d.view (run-Last (insert_file p name type user group mode) s).at)
                (run-Last (insert_file p name type user group mode) s).kept);
    }
