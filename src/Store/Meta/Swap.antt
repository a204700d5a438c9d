-- ===== src/Store/Meta/Swap.antt =====
-- What `swap` does to the tables, whichever of its statements fail.
use myfs.Base.{ℕ, ◌≡◌, refl, ap, ◌∙◌, inl, inr, Bool, true, Bool-cases, if◌then◌else◌}
use myfs.Sql.{Sql, start_transaction, set_parent}
use myfs.Sql.Tables.{Tables, effect, Collation, edit_file}
use myfs.Sql.Laws.{Commits, Documented}
use myfs.Sql.Steps.{tables_of, saved_of, tables_after, saved_after, start_tables, start_saved}
use myfs.Store.Block.Transaction.{stop-true, stop-Lasts, stop-false}
use myfs.Store.Meta.{swap}

module _ (c : Collation) (db : Sql) (d : Documented c db) where
  swapped :
      (file1 parent1 file2 parent2 : ℕ) (s : db.State)
      → Commits db
      → let (success, s') = swap db file1 parent1 file2 parent2 s in
        let t = tables_of c db d s in
        tables_of c db d s' ≡ (
          if success
          then record t {
            files =
                edit_file file2
                  (λ r. record r { parent_id = parent1 })
                  (edit_file file1 (λ r. record r { parent_id = parent2 }) t.files);
          }
          else t)
  unfolding swap effect
  swapped file1 parent1 file2 parent2 s commits = elim (Bool-cases begun.0) [
    | inr not_begun ↦ rw (not_begun, swap) (start_tables c db d s)
    | inl began ↦ elim (Bool-cases first.0) [
      | inr failed ↦
          rw (began, swap, failed)
            (stop-false c db d first.1
              ∙ saved_after c db d (set_parent file1 parent2) begun.1 (λ now v. refl)
              ∙ start_saved c db d s began)
      | inl ok ↦ elim (Bool-cases second.0) [
        | inr failed ↦
            rw (began, swap, ok, failed)
              (stop-false c db d second.1
                ∙ saved_after c db d (set_parent file2 parent1) first.1 (λ now v. refl)
                ∙ saved_after c db d (set_parent file1 parent2) begun.1 (λ now v. refl)
                ∙ start_saved c db d s began)
        | inl ok_too ↦
            rw (began, swap, ok, ok_too)
              (stop-true c db d second.1 commits
                ∙ tables_after c db d (set_parent file2 parent1) first.1 (λ now v. refl) ok_too
                ∙ ap (parent_set file2 parent1) (
                    tables_after c db d (set_parent file1 parent2) begun.1 (λ now v. refl) ok
                    ∙ ap (parent_set file1 parent2) (start_tables c db d s)))
      ]
    ]
  ]
    where
      begun : Bool × db.State
      begun = db.query start_transaction s

      first : Bool × db.State
      first = db.query (set_parent file1 parent2) begun.1

      second : Bool × db.State
      second = db.query (set_parent file2 parent1) first.1

      parent_set : ℕ → ℕ → Tables → Tables
      parent_set k p t = record t { files = edit_file k (λ r. record r { parent_id = p }) t.files }

  swap-Lasts :
      (file1 parent1 file2 parent2 : ℕ) (s : db.State)
      → Commits db
      → (swap db file1 parent1 file2 parent2 s).0 ≡ true
      → let s' = (swap db file1 parent1 file2 parent2 s).1 in
        saved_of c db d s' ≡ tables_of c db d s'
  unfolding swap
  swap-Lasts file1 parent1 file2 parent2 s commits h = elim (Bool-cases begun.0) [
    | inr not_begun ↦ cc (rw (swap, not_begun) at h)
    | inl began ↦ elim (Bool-cases first.0) [
      | inr failed ↦ cc (rw (swap, began, failed) at h)
      | inl ok ↦ elim (Bool-cases second.0) [
        | inr failed ↦ cc (rw (swap, began, ok, failed) at h)
        | inl ok_too ↦ rw (swap, began, ok, ok_too) (stop-Lasts c db d second.1 commits)
      ]
    ]
  ]
    where
      begun : Bool × db.State
      begun = db.query start_transaction s

      first : Bool × db.State
      first = db.query (set_parent file1 parent2) begun.1

      second : Bool × db.State
      second = db.query (set_parent file2 parent1) first.1

  -- Where no COMMIT fails, whichever other statements do: where `swap` reports success each of the
  -- two files has the other's parent and nothing else has changed, and this is committed; where it
  -- reports a failure the tables are as they were.
  pub swap_lem :
      (file1 parent1 file2 parent2 : ℕ) (s : db.State)
      → Commits db
      → let (success, s') = swap db file1 parent1 file2 parent2 s in
        let t = tables_of c db d s in
        (tables_of c db d s' ≡ (
          if success
          then record t {
            files =
                edit_file file2
                  (λ r. record r { parent_id = parent1 })
                  (edit_file file1 (λ r. record r { parent_id = parent2 }) t.files);
          }
          else t))
        × (success ≡ true → saved_of c db d s' ≡ tables_of c db d s')
  swap_lem file1 parent1 file2 parent2 s commits = (
    swapped file1 parent1 file2 parent2 s commits,
    swap-Lasts file1 parent1 file2 parent2 s commits,
  )
