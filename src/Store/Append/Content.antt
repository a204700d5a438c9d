-- ===== src/Store/Append/Content.antt =====
-- What `append` does to the content of a file, whatever statements fail.
use mathlib.Core.Path.{subst}
use myfs.Base.{
  ℕ, ◌+◌, ◌^◌, ◌≤◌, ◌≡◌, refl, ap, ◌∙◌, inl, inr, Bool, true, false, Option, List, ◌++◌, Bytes,
  Bool-cases, Option-cases, length, head?, map,
}
use myfs.Sql.{Sql, BlockHead, FileRow, last_block, add_size, start_transaction}
use myfs.Sql.Tables.{Tables, Collation, effect, edit_file, head_of, last}
use myfs.Sql.Laws.{Commits, Documented}
use myfs.Sql.Steps.{
  tables_of, saved_of, tables_after, saved_after, tables_unchanged, saved_unchanged, start_tables,
  start_saved,
}
use myfs.Store.Content.{content, WellFormed, Changed, WellFormed-files}
use myfs.Store.Block.{stop}
use myfs.Store.Block.Insert.{Ran}
use myfs.Store.Block.Transaction.{stop-true, stop-Lasts, stop-false}
use myfs.Store.Append.{append_last, append_body, append}
use myfs.Store.Append.Last.{append_last_lem}

-- From `s` to `s'`, where `success` is reported: on success only the blocks of `g` have changed, to
-- hold `bytes` behind its content, the size of its row has grown by as much, and this is committed;
-- else nothing has changed.
module _ (c : Collation) (db : Sql) (d : Documented c db) where
  pub record Appended (g : ℕ) (bytes : Bytes) (s : db.State) (success : Bool) (s' : db.State)
      : Type 0 where
    pub changed :
        success ≡ true
        → Changed
            (tables_of c db d s)
            (tables_of c db d s')
            g
            (content (tables_of c db d s) g ++ bytes)
    pub sized :
        success ≡ true
        → (tables_of c db d s').files
          ≡ edit_file g (λ r. record r { size = r.size + length bytes }) (tables_of c db d s).files
    -- what a later ROLLBACK returns to
    pub lasting : success ≡ true → saved_of c db d s' ≡ tables_of c db d s'
    pub kept : success ≡ false → tables_of c db d s' ≡ tables_of c db d s

  module _ (g : ℕ) (bytes : Bytes) (s : db.State) (w : WellFormed (tables_of c db d s))
      (room : length (content (tables_of c db d s) g) + length bytes + 8192 ≤ 2 ^ 44) where
    abbrev pub t0 : Tables
    t0 = tables_of c db d s

    abbrev pub sized_files : List FileRow
    sized_files = edit_file g (λ r. record r { size = r.size + length bytes }) t0.files

    abbrev pub found : Option (List BlockHead) × db.State
    found = db.select (last_block g) s

    abbrev pub sized_query : Bool × db.State
    sized_query = db.query (add_size g (length bytes)) found.1

    pub tables-sized :
        sized_query.0 ≡ true → tables_of c db d sized_query.1 ≡ record t0 { files = sized_files }
    unfolding effect
    tables-sized ok =
        rw (← tables_unchanged c db d (last_block g) s)
          (tables_after c db d (add_size g (length bytes)) found.1 (λ now v. refl) ok)

    saved-sized : saved_of c db d sized_query.1 ≡ saved_of c db d s
    saved-sized =
        saved_after c db d (add_size g (length bytes)) found.1 (λ now v. refl)
        ∙ saved_unchanged c db d (last_block g) s

    pub record Body (success : Bool) (s' : db.State) : Type 0 where
      pub saved : saved_of c db d s' ≡ saved_of c db d s
      pub changed : success ≡ true → Changed t0 (tables_of c db d s') g (content t0 g ++ bytes)
      pub sized : success ≡ true → (tables_of c db d s').files ≡ sized_files

    from_last :
        (rows : List BlockHead)
        → rows ≡ map head_of (last (t0.blocks g))
        → sized_query.0 ≡ true
        → let r = append_last db g bytes (head? rows) sized_query.1 in Body r.0 r.1
    from_last rows e ok =
        body
          (append_last_lem c db d g bytes sized_query.1 formed fits rows (rw (tables-sized ok) e))
      where
        formed : WellFormed (tables_of c db d sized_query.1)
        formed = rw (tables-sized ok) (WellFormed-files t0 sized_files w)

        fits : length (content (tables_of c db d sized_query.1) g) + length bytes + 8192 ≤ 2 ^ 44
        fits = rw (tables-sized ok) room

        r : Bool × db.State
        r = append_last db g bytes (head? rows) sized_query.1

        body :
            Ran c db d g sized_query.1 r.0 r.1 (content (tables_of c db d sized_query.1) g ++ bytes)
            → Body r.0 r.1
        body q = record {
          saved = q.saved ∙ saved-sized;
          changed = λ h. change (
              subst (λ u. Changed u (tables_of c db d r.1) g (content u g ++ bytes))
                (tables-sized ok) (q.changed h));
          sized = λ h. q.files h ∙ ap (λ (u : Tables). u.files) (tables-sized ok);
        }
          where
            change :
                Changed
                  (record t0 { files = sized_files })
                  (tables_of c db d r.1)
                  g
                  (content t0 g ++ bytes)
                → Changed t0 (tables_of c db d r.1) g (content t0 g ++ bytes)
            change x = record { formed = x.formed; content_is = x.content_is; others = x.others }

    pub append_body_lem : let r = append_body db g bytes s in Body r.0 r.1
    unfolding append_body
    append_body_lem = elim (Option-cases found.0) [
      | inl no_rows ↦
          rw (no_rows, append_body)
            (record {
              saved = saved_unchanged c db d (last_block g) s;
              changed = λ h. cc;
              sized = λ h. cc;
            })
      | inr (rows, there) ↦ elim (Bool-cases sized_query.0) [
        | inr no_effect ↦
            rw (there, no_effect, append_body)
              (record { saved = saved-sized; changed = λ h. cc; sized = λ h. cc })
        | inl ok ↦
            rw (there, ok, append_body) (from_last rows (d.answered (last_block g) s rows there) ok)
      ]
    ]

  -- Whatever statements but COMMIT fail, `append` reports success with `bytes` behind the content of
  -- the file and its size grown by as much, which is committed, and a failure with the tables as they
  -- were.
  pub append_lem :
      (g : ℕ) (bytes : Bytes) (s : db.State)
      → WellFormed (tables_of c db d s)
      → length (content (tables_of c db d s) g) + length bytes + 8192 ≤ 2 ^ 44
      → Commits db
      → Appended g bytes s (append db g bytes s).0 (append db g bytes s).1
  unfolding append
  append_lem g bytes s w room commits = elim (Bool-cases (db.query start_transaction s).0) [
    | inr not_started ↦
        rw (not_started, append)
          (record {
            changed = λ h. cc;
            sized = λ h. cc;
            lasting = λ h. cc;
            kept = λ _. start_tables c db d s;
          })
    | inl started ↦ rw (started, append) (finish started)
  ]
    where
      s0 : db.State
      s0 = (db.query start_transaction s).1

      r : Bool × db.State
      r = append_body db g bytes s0

      same : tables_of c db d s0 ≡ tables_of c db d s
      same = start_tables c db d s

      body : Body g bytes s0 (rw same w) (rw same room) r.0 r.1
      body = append_body_lem g bytes s0 (rw same w) (rw same room)

      finish : (db.query start_transaction s).0 ≡ true → Appended g bytes s r.0 (stop db r.0 r.1)
      finish started = elim (Bool-cases r.0) [
        | inl ok ↦ rw ok (record {
          changed = λ _. rw (stop-true c db d r.1 commits) (rw same at (body.changed ok));
          lasting = λ _. stop-Lasts c db d r.1 commits;
          sized = λ _. rw (stop-true c db d r.1 commits) (rw same at (body.sized ok));
          kept = λ h. cc;
        })
        | inr no_effect ↦ rw no_effect (record {
          changed = λ h. cc;
          sized = λ h. cc;
          lasting = λ h. cc;
          kept = λ _. stop-false c db d r.1 ∙ body.saved ∙ start_saved c db d s started;
        })
      ]
