-- ===== src/Db/Connection/Served.antt =====
-- What is documented of one call of MariaDB's client library where it succeeds, the condition on
-- those that fail, and what a series of tries keeps of the tables.

use myfs.Base.{ℕ, ◌+◌, ◌≡◌, refl, ap, ◌∙◌, ◌⊎◌, inl, inr, true, false, some, List, Bytes}
use myfs.Sql.{Statement, rollback, commit, insert_file, Select, Row}
use myfs.Sql.Tables.{Collation, effect, skipped, Answer}
use myfs.Sql.Keys.{accepts}
use myfs.Sql.Laws.{View, rolled_back, after_skip, AfterFailed}
use myfs.Db.{Client}
use myfs.Db.Connection.{Text, command, question, RowOf}

module _ (c : Collation) where
  -- What is documented of one call of the client library.
  pub record Served (m : Client Text RowOf) : Type 0 where
    pub view : m.State → View
    pub now : Statement → m.State → ℕ
    -- how many numbers an INSERT passes over
    pub skip : Statement → m.State → ℕ
    pub succeeded :
        (st : Statement) (s : m.State)
        → (m.real_query (command st) s).0 ≡ true
        → view (m.real_query (command st) s).1 ≡ after_skip c (now st s) (skip st s) st (view s)
    pub allowed :
        (st : Statement) (s : m.State)
        → (m.real_query (command st) s).0 ≡ true
        → accepts c st (skipped st (skip st s) (view s).tables) ≡ true
    pub asked :
        (q : Select) (s : m.State)
        → (m.real_query (question q) s).0 ≡ true
        → view (m.real_query (question q) s).1 ≡ view s
    pub stored : (q : Select) (s : m.State) → view (m.store_result (question q) s).1 ≡ view s
    pub answered :
        (q : Select) (s : m.State) (rows : List (Row q))
        → (m.real_query (question q) s).0 ≡ true
        → (m.store_result (question q) (m.real_query (question q) s).1).0 ≡ some rows
        → Answer c q (view s).tables rows
    pub slept : (s : m.State) → view (m.sleep s) ≡ view s
    pub inserted :
        (p : ℕ) (name type user group : Bytes) (mode : ℕ) (s : m.State)
        → (m.real_query (command (insert_file p name type user group mode)) s).0 ≡ true
        → m.insert_id (m.real_query (command (insert_file p name type user group mode)) s).1
          ≡ (view s).tables.next_file + skip (insert_file p name type user group mode) s

-- After a call that fails and leaves the transaction open. A ROLLBACK that fails has lost the
-- connection, and the server rolls back by itself.
abbrev pub after_failed : Statement → View → View
after_failed rollback v = rolled_back v
after_failed st v = v

pub failed-AfterFailed :
    (st : Statement) (v v' : View) → v' ≡ after_failed st v → AfterFailed st v v'
failed-AfterFailed rollback v v' e = e
failed-AfterFailed commit v v' e = inr (inr e)
failed-AfterFailed _ v v' e = e

module _ (c : Collation) (m : Client Text RowOf) (d : Served c m) where
  -- No call that fails but a ROLLBACK ends the transaction: none loses the connection, which the
  -- library would open anew (MYSQL_OPT_RECONNECT), and none is given up because of a deadlock. This
  -- is a condition, and not documented of the library.
  pub record Stays : Type 0 where
    pub failed :
        (st : Statement) (s : m.State)
        → (m.real_query (command st) s).0 ≡ false
        → d.view (m.real_query (command st) s).1 ≡ after_failed st (d.view s)
    pub unanswered :
        (q : Select) (s : m.State)
        → (m.real_query (question q) s).0 ≡ false
        → d.view (m.real_query (question q) s).1 ≡ d.view s

-- What the tries before the last one leave of the tables.
abbrev pub Kept : Text → View → View → Type 0
Kept (command st) v v' = (v' ≡ v) ⊎ (v' ≡ after_failed st v)
Kept (question q) v v' = v' ≡ v

after_failed_twice :
    (st : Statement) (v : View) → after_failed st (after_failed st v) ≡ after_failed st v
after_failed_twice rollback v = refl
after_failed_twice _ v = refl

after-after_failed :
    (c : Collation) (now n : ℕ) (st : Statement) (v : View)
    → after_skip c now n st (after_failed st v) ≡ after_skip c now n st v
unfolding effect
after-after_failed c now n rollback v = refl
after-after_failed c now n _ v = refl

accepts-after_failed :
    (c : Collation) (n : ℕ) (st : Statement) (v : View)
    → accepts c st (skipped st n (after_failed st v).tables) ≡ accepts c st (skipped st n v.tables)
unfolding accepts
accepts-after_failed c n rollback v = refl
accepts-after_failed c n _ v = refl

pub Kept-refl : (query : Text) (v : View) → Kept query v v
Kept-refl (command st) v = inl refl
Kept-refl (question q) v = refl

pub Kept-trans :
    (query : Text) (v1 v2 v3 : View) → Kept query v1 v2 → Kept query v2 v3 → Kept query v1 v3
Kept-trans (command st) v1 v2 v3 (inl e) (inl e') = inl (e' ∙ e)
Kept-trans (command st) v1 v2 v3 (inl e) (inr e') = inr (e' ∙ ap (after_failed st) e)
Kept-trans (command st) v1 v2 v3 (inr e) (inl e') = inr (e' ∙ e)
Kept-trans (command st) v1 v2 v3 (inr e) (inr e') =
    inr (e' ∙ ap (after_failed st) e ∙ after_failed_twice st v1)
Kept-trans (question q) v1 v2 v3 e e' = e' ∙ e

module _ (c : Collation) (now n : ℕ) (st : Statement) (v v' : View) where
  pub Kept-after : Kept (command st) v v' → after_skip c now n st v' ≡ after_skip c now n st v
  Kept-after (inl e) = ap (after_skip c now n st) e
  Kept-after (inr e) = ap (after_skip c now n st) e ∙ after-after_failed c now n st v

module _ (c : Collation) (n : ℕ) (st : Statement) (v v' : View) where
  pub Kept-accepts :
      Kept (command st) v v'
      → accepts c st (skipped st n v'.tables) ≡ accepts c st (skipped st n v.tables)
  Kept-accepts (inl e) = ap (λ (x : View). accepts c st (skipped st n x.tables)) e
  Kept-accepts (inr e) =
      ap (λ (x : View). accepts c st (skipped st n x.tables)) e ∙ accepts-after_failed c n st v

module _ (st : Statement) (v v' : View) where
  pub Kept-after_failed : Kept (command st) v v' → after_failed st v' ≡ after_failed st v
  Kept-after_failed (inl e) = ap (after_failed st) e
  Kept-after_failed (inr e) = ap (after_failed st) e ∙ after_failed_twice st v
