-- ===== src/Store/Truncate/Content.antt =====
-- What `myfs_db_file_truncate` does to the content of a file, whatever statements fail.
use mathlib.Core.Path.{subst}
use myfs.Base.{
  ℕ, ◌+◌, ◌-◌, ◌^◌, ◌≤◌, ◌≡◌, refl, ap, sym, ◌∙◌, inl, inr, Bool, true, false, Option, some, List,
  [], ◌∷◌, Bytes, ltb, ◌==◌, All, Bool-cases, Option-cases, length, arith,
}
use myfs.Sql.{Sql, start_transaction, file_size, set_size, Outcome, done, fault, running}
use myfs.Sql.Tables.{Tables, Collation, effect}
use myfs.Sql.Laws.{Commits, Documented}
use myfs.Sql.Steps.{tables_of, saved_of, tables_after, tables_unchanged, start_tables}
use myfs.Store.Content.{content, WellFormed, Changed, Changed-refl, WellFormed-files}
use myfs.Store.Block.Transaction.{stop-true, stop-Lasts}
use myfs.Store.Truncate.{grow, shrink, resize, truncate_body, truncate_end, truncate}
use myfs.Store.Truncate.Grow.{grow_lem}
use myfs.Store.Truncate.Cut.{resized, cut-resized}
use myfs.Store.Truncate.Shrink.{shrink_lem}
use myfs.Store.Truncate.Failure.{truncate-kept}
use myfs.Store.Truncate.Measured.{IsMeasured, with_size, with_size-same, found-IsMeasured}

-- Only the blocks of `g` have changed, to hold the bytes that `size` asks for, and the `size` of its
-- row.
pub record Resized (g size : ℕ) (t t' : Tables) : Type 0 where
  pub changed : Changed t t' g (resized size (content t g))
  pub sized : t'.files ≡ with_size g size t.files

module _ (c : Collation) (db : Sql) (d : Documented c db) (g size : ℕ) where
  module _ (s : db.State) (w : WellFormed (tables_of c db d s))
      (room : length (content (tables_of c db d s) g) + size + 8192 ≤ 2 ^ 44)
      (measured : All
        (IsMeasured g (length (content (tables_of c db d s) g)))
        (tables_of c db d s).files) where
    abbrev t : Tables
    t = tables_of c db d s

    abbrev Becomes : db.State → Type 0
    Becomes s' = Resized g size t (tables_of c db d s')

    abbrev sized_tables : Tables
    sized_tables = record t { files = with_size g size t.files }

    abbrev sent : Bool × db.State
    sent = db.query (set_size g size) s

    tables-sized : sent.0 ≡ true → tables_of c db d sent.1 ≡ sized_tables
    unfolding effect
    tables-sized ok = tables_after c db d (set_size g size) s (λ now v. refl) ok

    -- What is done after the size is set.
    from_sized :
        (s' : db.State) (y : Bytes)
        → sent.0 ≡ true
        → y ≡ resized size (content t g)
        → Changed (tables_of c db d sent.1) (tables_of c db d s') g y
        → (tables_of c db d s').files ≡ (tables_of c db d sent.1).files
        → Becomes s'
    from_sized s' y ok e p f = record {
      changed = record {
        formed = p.formed;
        content_is = p.content_is ∙ e;
        others = λ h ne. p.others h ne ∙ ap (λ (u : Tables). u.blocks h) (tables-sized ok);
      };
      sized = f ∙ ap (λ (u : Tables). u.files) (tables-sized ok);
    }

    resize_lem :
        (fuel : ℕ)
        → let r = resize db fuel g size (length (content t g)) s in r.0 ≡ done true → Becomes r.1
    unfolding resize
    resize_lem fuel success = elim (Bool-cases (size == length (content t g))) [
      | inl same ↦
          let e : size ≡ length (content t g) = ground arith in
          let less : ltb (length (content t g)) size ≡ false = ground arith in
          let same_size : content t g ≡ resized size (content t g) = rw (less, same) refl in
          rw (resize, same)
            (record {
              changed = Changed-refl g _ w same_size;
              sized = sym (with_size-same g size t.files (rw e measured));
            })
      | inr differs ↦ elim (Bool-cases sent.0) [
        | inr failed ↦ cc (rw (resize, differs, failed) at success)
        | inl ok ↦ elim (Bool-cases (ltb (length (content t g)) size)) [
          | inl larger ↦
              rw (resize, differs, ok, larger)
                (from_grow ok larger (rw (resize, differs, ok, larger) at success))
          | inr smaller ↦
              rw (resize, differs, ok, smaller)
                (from_shrink ok (ground arith) (rw (resize, differs, ok, smaller) at success))
        ]
      ]
    ]
      where
        formed : sent.0 ≡ true → WellFormed (tables_of c db d sent.1)
        formed ok = rw (tables-sized ok) (WellFormed-files t _ w)

        now_there : sent.0 ≡ true → content (tables_of c db d sent.1) g ≡ content t g
        now_there ok = ap (λ (u : Tables). content u g) (tables-sized ok)

        from_grow :
            sent.0 ≡ true
            → ltb (length (content t g)) size ≡ true
            → let r = grow db g (size - length (content t g)) sent.1 in
              done r.0 ≡ done true → Becomes r.1
        from_grow ok larger done_so =
            let grown : (grow db g (size - length (content t g)) sent.1).0 ≡ true = cc done_so in
            let p =
              grow_lem c db d g (size - length (content t g)) sent.1 (formed ok)
                (rw (now_there ok) (ground arith)) in
            from_sized _ _ ok (rw (now_there ok, larger) refl) (p.changed grown) (p.files grown)

        from_shrink :
            sent.0 ≡ true
            → size ≤ length (content t g)
            → let r = shrink db fuel g (length (content t g) - size) sent.1 in
              r.0 ≡ done true → Becomes r.1
        from_shrink ok le done_so =
            let p =
              shrink_lem c db d g fuel (length (content t g) - size) sent.1 (formed ok)
                (rw (now_there ok) (omega arith)) done_so in
            from_sized _ _ ok (rw (now_there ok) (cut-resized size (content t g) le)) p.changed
              p.files

  module _ (fuel : ℕ) where
    truncate_body_lem :
        (s : db.State)
        → WellFormed (tables_of c db d s)
        → length (content (tables_of c db d s) g) + size + 8192 ≤ 2 ^ 44
        → All (IsMeasured g (length (content (tables_of c db d s) g))) (tables_of c db d s).files
        → (truncate_body db fuel g size s).0 ≡ done true
        → Resized g size (tables_of c db d s) (tables_of c db d (truncate_body db fuel g size s).1)
    unfolding truncate_body
    truncate_body_lem s w room measured success = elim (Option-cases found.0) [
      | inl lost ↦ cc (rw (truncate_body, lost) at success)
      | inr ([], there) ↦ cc (rw (truncate_body, there) at success)
      | inr (current ∷ rows, there) ↦
          rw (truncate_body, there)
            (from_size current rows there (rw (truncate_body, there) at success))
    ]
      where
        found : Option (List ℕ) × db.State
        found = db.select (file_size g) s

        same : tables_of c db d found.1 ≡ tables_of c db d s
        same = tables_unchanged c db d (file_size g) s

        from_size :
            (current : ℕ) (rows : List ℕ)
            → found.0 ≡ some (current ∷ rows)
            → let r = resize db fuel g size current found.1 in
              r.0 ≡ done true → Resized g size (tables_of c db d s) (tables_of c db d r.1)
        from_size current rows there success =
            let e : current ≡ length (content (tables_of c db d s) g) =
              found-IsMeasured g _ _ current rows
                (d.answered (file_size g) s (current ∷ rows) there) measured in
            subst
              (λ n.
                (resize db fuel g size n found.1).0 ≡ done true
                → Resized g size (tables_of c db d s)
                    (tables_of c db d (resize db fuel g size n found.1).1))
              (sym e)
              (rw same at (resize_lem found.1 (rw same w) (rw same room) (rw same measured) fuel))
              success

    -- From `s` to `s'`, where `r` is reported.
    pub record Truncated (s : db.State) (r : Outcome Bool) (s' : db.State) : Type 0 where
      pub resizes : r ≡ done true → Resized g size (tables_of c db d s) (tables_of c db d s')
      -- what a later ROLLBACK returns to
      pub lasting : r ≡ done true → saved_of c db d s' ≡ tables_of c db d s'
      pub kept : r ≡ done false → tables_of c db d s' ≡ tables_of c db d s

    truncate_end_lem :
        (t : Tables) (r : Outcome Bool) (s : db.State)
        → Commits db
        → (r ≡ done true → Resized g size t (tables_of c db d s))
        → (truncate_end db r s).0 ≡ done true
        → let s' = (truncate_end db r s).1 in
          Resized g size t (tables_of c db d s') × (saved_of c db d s' ≡ tables_of c db d s')
    unfolding truncate_end
    truncate_end_lem t (done true) s commits h success =
        (rw (stop-true c db d s commits) (h refl), stop-Lasts c db d s commits)
    truncate_end_lem t (done false) s commits h success = cc
    truncate_end_lem t fault s commits h success = cc
    truncate_end_lem t running s commits h success = cc

    -- Where the tables are well-formed, the rows of the file have the length of its content for their
    -- size, there is room, and no COMMIT fails, whichever other statements do: where `truncate`
    -- reports success only the content of the file and its size have changed, and the content is the
    -- old one with blanks behind it, where the file grows, and where it is cut the old one up to the
    -- block in which it is cut, and then blanks, and this is committed; where it reports a failure
    -- the tables are as they were.
    pub truncate_lem :
        (s : db.State)
        → WellFormed (tables_of c db d s)
        → length (content (tables_of c db d s) g) + size + 8192 ≤ 2 ^ 44
        → All (IsMeasured g (length (content (tables_of c db d s) g))) (tables_of c db d s).files
        → Commits db
        → Truncated s (truncate db fuel g size s).0 (truncate db fuel g size s).1
    unfolding truncate
    truncate_lem s w room measured commits = record {
      resizes = λ h. (whole h).0;
      lasting = λ h. (whole h).1;
      kept = truncate-kept c db d fuel g size s;
    }
      where
        begun : Bool × db.State
        begun = db.query start_transaction s

        r : Outcome Bool × db.State
        r = truncate_body db fuel g size begun.1

        same : tables_of c db d begun.1 ≡ tables_of c db d s
        same = start_tables c db d s

        body : r.0 ≡ done true → Resized g size (tables_of c db d s) (tables_of c db d r.1)
        body h =
            rw same at (truncate_body_lem begun.1 (rw same w) (rw same room) (rw same measured) h)

        whole :
            (truncate db fuel g size s).0 ≡ done true
            → let s' = (truncate db fuel g size s).1 in
              Resized g size (tables_of c db d s) (tables_of c db d s')
              × (saved_of c db d s' ≡ tables_of c db d s')
        whole h = elim (Bool-cases begun.0) [
          | inr not_begun ↦ cc (rw (truncate, not_begun) at h)
          | inl began ↦
              rw (truncate, began)
                (truncate_end_lem (tables_of c db d s) r.0 r.1 commits body
                  (rw (truncate, began) at h))
        ]
