-- ===== src/Sql/Laws.antt =====
-- What the program relies on of MariaDB, as hypotheses about a connection: a statement that
-- succeeds has its documented effect and was allowed by the keys and the column types, one that
-- fails has none but a COMMIT, which may have its effect or not, a transaction that is rolled back,
-- or whose ROLLBACK fails, leaves the tables as they were at its start, and a SELECT that succeeds
-- returns the rows that it describes. That the connection is lost and opened anew between two
-- statements of a transaction is left out.
use myfs.Base.{ℕ, ◌+◌, ◌≡◌, ◌⊎◌, true, false, some, List}
use myfs.Sql.{Sql, Statement, start_transaction, commit, rollback, insert_file, Select, Row}
use myfs.Sql.Tables.{Tables, Collation, effect, skipped, Answer}
use myfs.Sql.Keys.{accepts}
use myfs.Base.{Bytes}

-- The tables as the connection sees them, and those that a ROLLBACK returns to, which the program
-- sends at the end of a transaction only.
pub record View : Type 0 where
  pub tables : Tables
  pub saved : Tables

abbrev pub committed : View → View
committed v = record { tables = v.tables; saved = v.tables }

abbrev pub rolled_back : View → View
rolled_back v = record { tables = v.saved; saved = v.saved }

-- After a statement that failed. A ROLLBACK that fails has lost the connection, and the server
-- rolls back by itself. A COMMIT that fails leaves it open whether the changes are there: the
-- answer may have been lost, the server may have rolled back, or the transaction goes on.
abbrev pub AfterFailed : Statement → View → View → Type 0
AfterFailed rollback v v' = v' ≡ rolled_back v
AfterFailed commit v v' = (v' ≡ committed v) ⊎ (v' ≡ rolled_back v) ⊎ (v' ≡ v)
AfterFailed st v v' = v' ≡ v

-- No COMMIT fails, whatever else does.
abbrev pub Commits : Sql → Type 0
Commits db = (s : db.State) → (db.query commit s).0 ≡ true

module _ (c : Collation) where
  abbrev pub after : ℕ → Statement → View → View
  after now start_transaction v = record { tables = v.tables; saved = v.tables }
  after now commit v = committed v
  after now rollback v = rolled_back v
  after now st v = record { tables = effect c now st v.tables; saved = v.saved }

  -- The same where numbers of AUTO_INCREMENT have been passed over, as those of an INSERT that failed
  -- or was rolled back are.
  abbrev pub after_skip : ℕ → ℕ → Statement → View → View
  after_skip now n st v = after now st (record v { tables = skipped st n v.tables })

  pub record Documented (db : Sql) : Type 0 where
    pub view : db.State → View
    -- the server's time at which a statement has its effect
    pub now : Statement → db.State → ℕ
    -- how many numbers an INSERT passes over
    pub skip : Statement → db.State → ℕ
    pub succeeded :
        (st : Statement) (s : db.State)
        → (db.query st s).0 ≡ true
        → view (db.query st s).1 ≡ after_skip (now st s) (skip st s) st (view s)
    pub allowed :
        (st : Statement) (s : db.State)
        → (db.query st s).0 ≡ true
        → accepts c st (skipped st (skip st s) (view s).tables) ≡ true
    pub failed :
        (st : Statement) (s : db.State)
        → (db.query st s).0 ≡ false
        → AfterFailed st (view s) (view (db.query st s).1)
    pub unchanged : (q : Select) (s : db.State) → view (db.select q s).1 ≡ view s
    pub answered :
        (q : Select) (s : db.State) (rows : List (Row q))
        → (db.select q s).0 ≡ some rows
        → Answer c q (view s).tables rows
    pub inserted :
        (p : ℕ) (name type user group : Bytes) (mode : ℕ) (s : db.State)
        → (db.query (insert_file p name type user group mode) s).0 ≡ true
        → db.insert_id (db.query (insert_file p name type user group mode) s).1
          ≡ (view s).tables.next_file + skip (insert_file p name type user group mode) s

  -- A server on which nothing fails that the keys and the column types allow.
  pub record Reliable (db : Sql) (d : Documented db) : Type 0 where
    pub accepted :
        (st : Statement) (s : db.State)
        → accepts c st (d.view s).tables ≡ true
        → (db.query st s).0 ≡ true
    pub selected :
        (q : Select) (s : db.State) → (rows : List (Row q)) × ((db.select q s).0 ≡ some rows)
