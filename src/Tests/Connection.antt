-- ===== src/Tests/Connection.antt =====
-- A client library over the server in memory, with a clock, and the connection over it.
use myfs.Base.{
  ℕ, zero, suc, ◌+◌, ◌≡◌, refl, inl, codes, ◌∙◌, inr, Bool, true, false, Option, none, some, List,
  [], ◌∷◌, arith,
}
use myfs.Config.{config_get_int}
use myfs.Main.Defaults.{configs}
use myfs.Main.Start.{retry_of, myfs_connect}
use myfs.Main.Start.Returns.{myfs_connect_returns}
use myfs.Sql.{start_transaction, done, count_files}
use myfs.Sql.Laws.{Documented}
use myfs.Db.{Client, Retry, Db, query_timed, db_query}
use myfs.Db.Tries.{Tried, query_timed-Tried}
use myfs.Db.Returns.{Passes, sleeps, db_query_returns}
use myfs.Db.Connection.{Text, command, question, RowOf, connection}
use myfs.Db.Connection.Served.{Served, Stays, after_failed}
use myfs.Sql.Keys.{accepts}
use myfs.Sql.{Statement, rollback}
use myfs.Base.{ap}
use myfs.Db.Connection.Tables.{connection-Documented}
use myfs.Tests.Settings.{plain}
use myfs.Tests.Engine.{binary, Server, engine, engine-Documented, refused-same}
use myfs.Tests.Examples.{server}

abbrev rows_of : (q : Text) → Server × ℕ → Option (List (RowOf q)) × (Server × ℕ)
rows_of (command st) s = (none, s)
rows_of (question q) s = ((engine.select q s.0).0, s)

abbrev send : Text → Server × ℕ → Bool × (Server × ℕ)
send (command st) (s, now) = let (ok, s') = engine.query st s in (ok, (s', now))
send (question q) s = (true, s)

abbrev library : Client Text RowOf
library = record {
  State = Server × ℕ;
  real_query = send;
  store_result = rows_of;
  error = λ s. [];
  insert_id = λ s. engine.insert_id s.0;
  time = λ s. s.1;
  sleep = λ s. (s.0, s.1 + 1);
}

-- The server in memory refuses a statement without any change, and no ROLLBACK.
refused_view :
    (st : Statement) (s : Server)
    → (engine.query st s).0 ≡ false
    → engine-Documented.view (engine.query st s).1 ≡ after_failed st (engine-Documented.view s)
unfolding accepts
refused_view rollback s h = cc
refused_view st s h = ap engine-Documented.view (refused-same st s h)

library-Served : Served binary library
library-Served = record {
  view = λ s. engine-Documented.view s.0;
  now = λ st s. engine-Documented.now st s.0;
  skip = λ st s. engine-Documented.skip st s.0;
  succeeded = λ st s h. engine-Documented.succeeded st s.0 h;
  allowed = λ st s h. engine-Documented.allowed st s.0 h;
  asked = λ q s ok. refl;
  stored = λ q s. refl;
  answered = λ q s rows h got. engine-Documented.answered q s.0 rows got;
  slept = λ s. refl;
  inserted = λ p name type user group mode s h.
      engine-Documented.inserted p name type user group mode s.0 h;
}

library-Stays : Stays binary library library-Served
unfolding library-Served
library-Stays = record { failed = λ st s h. refused_view st s.0 h; unanswered = λ q s h. refl }

time-sleeps : (k : ℕ) (s : Server × ℕ) → library.time (sleeps library k s) ≡ s.1 + k
time-sleeps zero s = omega arith
time-sleeps (suc k) s = time-sleeps k (s.0, s.1 + 1) ∙ (omega arith)

library-Passes : Passes library
library-Passes t s = (t, omega (arith, time-sleeps t s))

abbrev five_tries : Retry
five_tries = record { wait = some 10; limit = some 5 }

connection-Documented_example :
    Documented binary (connection library library-Passes five_tries (inr (5, refl)))
connection-Documented_example =
    connection-Documented binary library library-Served library-Stays library-Passes five_tries
      (inr (5, refl))

db_query_returns_example :
    (fuel : ℕ) × (success : Bool) × ((db_query library fuel
        (command start_transaction)
        (record { mysql = (server, 0); retry = five_tries; error = [] })).0
      ≡ done success)
db_query_returns_example =
    db_query_returns library library-Passes (command start_transaction)
      (record { mysql = (server, 0); retry = five_tries; error = [] }) (inr (5, refl))

-- A library whose first three calls fail, two of them within the time that is waited for.
abbrev flaky : Client ℕ (λ _. ℕ)
flaky = record {
  State = ℕ × ℕ;
  real_query = λ q s.
      (elim s.0 [ zero ↦ true | suc n ↦ false ], (elim s.0 [ zero ↦ zero | suc n ↦ n ], s.1));
  store_result = λ q s. (none, s);
  error = λ s. b'e' ∷ [];
  insert_id = λ s. 0;
  time = λ s. s.1;
  sleep = λ s. (s.0, s.1 + 4);
}

abbrev flaky_db : Db flaky
flaky_db = record { mysql = (3, 0); retry = five_tries; error = [] }

third_retry : query_timed flaky 20 7 0 0 flaky_db ≡ (done true, record flaky_db { mysql = (0, 36) })
unfolding query_timed
third_retry = refl

third_retry_done : (query_timed flaky 20 7 0 0 flaky_db).0 ≡ done true
unfolding query_timed
third_retry_done = refl

query_timed-Tried_example : Tried flaky 7 0 0 flaky_db true (query_timed flaky 20 7 0 0 flaky_db).1
query_timed-Tried_example = query_timed-Tried flaky 20 7 0 0 flaky_db true third_retry_done

myfs_connect_returns_example :
    (fuel : ℕ) × (success : Bool) × ((myfs_connect library
        (question count_files)
        (λ n. some (codes "1024"))
        fuel
        true
        (server, 0)
        plain
        (record {
          db = record { mysql = (server, 0); retry = five_tries; error = [] };
          max_allowed_packet = 0;
        })).0
      ≡ done success)
unfolding retry_of config_get_int configs
myfs_connect_returns_example =
    myfs_connect_returns library (question count_files) (λ n. some (codes "1024")) true (server, 0)
      plain
      (record {
        db = record { mysql = (server, 0); retry = five_tries; error = [] };
        max_allowed_packet = 0;
      })
      library-Passes (inl refl)
