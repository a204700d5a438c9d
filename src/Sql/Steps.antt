-- ===== src/Sql/Steps.antt =====
-- One statement, as the hypotheses on the connection tell it: the tables and the tables to roll back
-- to, after a success and after a failure.
use myfs.Base.{ℕ, ◌≡◌, refl, ap, sym, ◌∙◌, inl, inr, true, Bool-cases}
use myfs.Sql.{Sql, Statement, start_transaction, commit, rollback, Select}
use myfs.Sql.Tables.{Tables, Collation, effect, skipped}
use myfs.Sql.Keys.{accepts}
use myfs.Sql.Laws.{View, after, AfterFailed, Commits, Documented, Reliable}

-- A statement that changes the tables only by its effect, and no bound of a transaction.
abbrev pub IsPlain : Collation → Statement → Type 0
IsPlain c st =
    (now : ℕ) (v : View)
    → after c now st v ≡ record { tables = effect c now st v.tables; saved = v.saved }

-- Where such a statement fails nothing has changed.
plain-AfterFailed :
    (c : Collation) (st : Statement) → IsPlain c st → (v v' : View) → AfterFailed st v v' → v' ≡ v
unfolding effect
plain-AfterFailed c rollback plain v v' h = h ∙ plain 0 v
plain-AfterFailed c commit plain v v' (inl h) = h ∙ plain 0 v
plain-AfterFailed c commit plain v v' (inr (inl h)) =
    let e : v.tables ≡ v.saved = ap (λ (x : View). x.saved) (plain 0 v) in
    h ∙ ap (λ (x : Tables). record { tables = x; saved = v.saved }) (sym e)
plain-AfterFailed c commit plain v v' (inr (inr h)) = h
plain-AfterFailed c _ plain v v' h = h

module _ (c : Collation) (db : Sql) (d : Documented c db) where
  abbrev pub tables_of : db.State → Tables
  tables_of s = (d.view s).tables

  abbrev pub saved_of : db.State → Tables
  saved_of s = (d.view s).saved

  pub tables_after :
      (st : Statement) (s : db.State)
      → IsPlain c st
      → (db.query st s).0 ≡ true
      → tables_of (db.query st s).1
        ≡ effect c (d.now st s) st (skipped st (d.skip st s) (tables_of s))
  tables_after st s plain ok =
      ap (λ (v : View). v.tables)
        (d.succeeded st s ok
          ∙ plain (d.now st s)
              (record (d.view s) { tables = skipped st (d.skip st s) (tables_of s) }))

  pub saved_after :
      (st : Statement) (s : db.State) → IsPlain c st → saved_of (db.query st s).1 ≡ saved_of s
  saved_after st s plain = elim (Bool-cases (db.query st s).0) [
    | inl ok ↦
        ap (λ (v : View). v.saved)
          (d.succeeded st s ok
            ∙ plain (d.now st s)
                (record (d.view s) { tables = skipped st (d.skip st s) (tables_of s) }))
    | inr no_effect ↦
        ap (λ (v : View). v.saved)
          (plain-AfterFailed c st plain (d.view s) _ (d.failed st s no_effect))
  ]

  pub tables_unchanged : (q : Select) (s : db.State) → tables_of (db.select q s).1 ≡ tables_of s
  tables_unchanged q s = ap (λ (v : View). v.tables) (d.unchanged q s)

  pub saved_unchanged : (q : Select) (s : db.State) → saved_of (db.select q s).1 ≡ saved_of s
  saved_unchanged q s = ap (λ (v : View). v.saved) (d.unchanged q s)

  -- A transaction that has started sees the tables as they were, and returns to them.
  pub start_tables : (s : db.State) → tables_of (db.query start_transaction s).1 ≡ tables_of s
  start_tables s = elim (Bool-cases (db.query start_transaction s).0) [
    | inl ok ↦ ap (λ (v : View). v.tables) (d.succeeded start_transaction s ok)
    | inr no_effect ↦ ap (λ (v : View). v.tables) (d.failed start_transaction s no_effect)
  ]

  pub start_saved :
      (s : db.State)
      → (db.query start_transaction s).0 ≡ true
      → saved_of (db.query start_transaction s).1 ≡ tables_of s
  start_saved s ok = ap (λ (v : View). v.saved) (d.succeeded start_transaction s ok)

  -- What has been committed is what a later ROLLBACK returns to.
  pub commit_tables :
      (s : db.State) → (db.query commit s).0 ≡ true → tables_of (db.query commit s).1 ≡ tables_of s
  commit_tables s ok = ap (λ (v : View). v.tables) (d.succeeded commit s ok)

  pub commit_saved :
      (s : db.State) → (db.query commit s).0 ≡ true → saved_of (db.query commit s).1 ≡ tables_of s
  commit_saved s ok = ap (λ (v : View). v.saved) (d.succeeded commit s ok)

  pub rollback_tables : (s : db.State) → tables_of (db.query rollback s).1 ≡ saved_of s
  rollback_tables s = elim (Bool-cases (db.query rollback s).0) [
    | inl ok ↦ ap (λ (v : View). v.tables) (d.succeeded rollback s ok)
    | inr lost ↦ ap (λ (v : View). v.tables) (d.failed rollback s lost)
  ]

  pub Reliable-Commits : Reliable c db d → Commits db
  unfolding accepts
  Reliable-Commits reliable s = reliable.accepted commit s refl
