-- ===== src/Store/Block/Saved.antt =====
-- Statements inside a transaction keep what a ROLLBACK returns to.
use myfs.Base.{
  ℕ, zero, suc, ◌+◌, ◌-◌, ◌≡◌, refl, ◌∙◌, Bool, true, false, Bytes, ◌==◌, if◌then◌else◌, take, drop,
  u32,
}
use myfs.Sql.{Sql, insert_block}
use myfs.Sql.Tables.{Collation}
use myfs.Sql.Laws.{Documented}
use myfs.Sql.Steps.{saved_of, saved_after}
use myfs.Store.Block.{block_size, at_most, insert_blocks}

module _ (c : Collation) (db : Sql) (d : Documented c db) where
  -- What a ROLLBACK returns to is the same after both.
  abbrev pub SameSaved : db.State → db.State → Type 0
  SameSaved s s' = saved_of c db d s' ≡ saved_of c db d s

  pub if-SameSaved :
      {A : Type 0} (s : db.State) (b : Bool) (x y : A × db.State)
      → SameSaved s x.1
      → SameSaved s y.1
      → SameSaved s (if b then x else y).1
  if-SameSaved s true x y p q = p
  if-SameSaved s false x y p q = q

  pub insert_blocks-SameSaved :
      (rounds g : ℕ) (bytes : Bytes) (written left index : ℕ) (s : db.State)
      → SameSaved s (insert_blocks db rounds g bytes written left index s).1
  unfolding insert_blocks
  insert_blocks-SameSaved zero g bytes written left index s = refl
  insert_blocks-SameSaved (suc rounds) g bytes written left index s =
      if-SameSaved s (left == 0) _ _ refl (
        if-SameSaved s sent.0 _ _
          (insert_blocks-SameSaved rounds g bytes (written + n) (left - n) (u32 (index + 1)) sent.1
            ∙ same)
          same)
    where
      n : ℕ
      n = at_most block_size left

      sent : Bool × db.State
      sent = db.query (insert_block g index (take n (drop written bytes))) s

      same : SameSaved s sent.1
      same =
          saved_after c db d (insert_block g index (take n (drop written bytes))) s (λ now v. refl)
