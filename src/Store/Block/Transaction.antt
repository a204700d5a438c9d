-- ===== src/Store/Block/Transaction.antt =====
-- The end of a transaction.
use myfs.Base.{◌≡◌, sym, ◌∙◌, true, false}
use myfs.Sql.{Sql}
use myfs.Sql.Tables.{Collation}
use myfs.Sql.Laws.{Commits, Documented}
use myfs.Sql.Steps.{tables_of, saved_of, commit_tables, commit_saved, rollback_tables}
use myfs.Store.Block.{stop}

module _ (c : Collation) (db : Sql) (d : Documented c db) (s : db.State) where
  pub stop-true : Commits db → tables_of c db d (stop db true s) ≡ tables_of c db d s
  unfolding stop
  stop-true commits = commit_tables c db d s (commits s)

  saved-stop-true : Commits db → saved_of c db d (stop db true s) ≡ tables_of c db d s
  unfolding stop
  saved-stop-true commits = commit_saved c db d s (commits s)

  -- What is committed lasts: a later ROLLBACK returns to it.
  pub stop-Lasts : Commits db → saved_of c db d (stop db true s) ≡ tables_of c db d (stop db true s)
  stop-Lasts commits = saved-stop-true commits ∙ sym (stop-true commits)

  pub stop-false : tables_of c db d (stop db false s) ≡ saved_of c db d s
  unfolding stop
  stop-false = rollback_tables c db d s
