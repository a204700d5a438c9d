-- ===== src/Store/Truncate/Blanks.antt =====
-- The loop of `myfs_db_file_truncate` that adds blocks of blanks at the end of a file.
use mathlib.Core.Path.{subst}
use myfs.Base.{
  ℕ, zero, suc, ◌+◌, ◌-◌, ◌≤◌, ◌<◌, ◌≡◌, refl, ap, sym, ◌∙◌, ◌⊎◌, inl, inr, Bool, true, ◌++◌, Bytes,
  ltb, ◌==◌, Bool-cases, u32, replicate, length-replicate, replicate-add, append-nil, append_assoc,
  arith,
}
use myfs.Sql.{Sql, insert_blank}
use myfs.Sql.Tables.{Tables, Collation, effect, add_block, space}
use myfs.Sql.Laws.{Documented}
use myfs.Sql.Steps.{tables_of, tables_after, saved_after}
use myfs.Store.Content.{content, WellFormed}
use myfs.Store.Content.Room.{ahead, Ready-ahead, Changed-ahead, Ready, Ready-Changed, Ready-add}
use myfs.Store.Block.{block_size, at_most}
use myfs.Store.Block.Insert.{Ran, Ran-here, Ran-false, Ran-trans}
use myfs.Store.Truncate.{insert_blanks}

abbrev pub blanks : ℕ → Bytes
blanks n = replicate n space

blanks-split : (w n : ℕ) → w ≤ n → blanks w ++ blanks (n - w) ≡ blanks n
blanks-split w n le = sym (replicate-add w (n - w) space) ∙ ap blanks (omega arith)

module _ (c : Collation) (db : Sql) (d : Documented c db) (g : ℕ) where
  insert_blanks_zero :
      (rounds index : ℕ) (s : db.State) → insert_blanks db rounds g 0 index s ≡ (true, s)
  unfolding insert_blanks
  insert_blanks_zero zero index s = refl
  insert_blanks_zero (suc rounds) index s = refl

  -- Where the loop has added what is left after `w` blanks, it has added all.
  pub follow :
      (s s1 s2 : db.State) (success : Bool) (x : Bytes) (w left : ℕ)
      → w ≤ left
      → Ran c db d g s true s1 (x ++ blanks w)
      → Ran c db d g s1 success s2 (content (tables_of c db d s1) g ++ blanks (left - w))
      → Ran c db d g s success s2 (x ++ blanks left)
  follow s s1 s2 success x w left le p q =
      Ran-trans c db d g s s1 s2 success (x ++ blanks w) (x ++ blanks left) p
        (subst (λ y. Ran c db d g s1 success s2 y) same q)
    where
      same : content (tables_of c db d s1) g ++ blanks (left - w) ≡ x ++ blanks left
      same =
          ap (λ y. y ++ blanks (left - w)) (p.changed refl).content_is
          ∙ append_assoc x (blanks w) (blanks (left - w))
          ∙ ap (λ y. x ++ y) (blanks-split w left le)

  module _ (left index : ℕ) (s : db.State) (h : Ready g (tables_of c db d s) index left) where
    abbrev step : ℕ → Bool × db.State
    step n = db.query (insert_blank g index n) s

    -- The tables with the numbers that the INSERT passes over.
    abbrev skipping : ℕ → Tables
    skipping n = ahead (d.skip (insert_blank g index n) s) (tables_of c db d s)

    ready : (n : ℕ) → Ready g (skipping n) index left
    ready n = Ready-ahead g (tables_of c db d s) index left _ h

    tables-step :
        (n : ℕ)
        → (step n).0 ≡ true
        → tables_of c db d (step n).1 ≡ add_block g index (blanks n) (skipping n)
    unfolding effect
    tables-step n ok = tables_after c db d (insert_blank g index n) s (λ now v. refl) ok

    step-Ran :
        (n : ℕ)
        → 0 < n
        → n ≤ 4096
        → Ran c db d g s (step n).0 (step n).1 (content (tables_of c db d s) g ++ blanks n)
    step-Ran n pos le = record {
      saved = saved_after c db d (insert_blank g index n) s (λ now v. refl);
      changed = λ ok. rw (tables-step n ok) (
          Changed-ahead g (tables_of c db d s) (add_block g index (blanks n) (skipping n)) _ _ (
            Ready-Changed g (skipping n) index left (ready n) (blanks n)
              (omega (arith, length-replicate n space)) (omega (arith, length-replicate n space))));
      files = λ ok. ap (λ (t : Tables). t.files) (tables-step n ok);
    }

    -- A block of `n` blanks, and the loop after it.
    after_step :
        (n : ℕ) (r : Bool × db.State)
        → 0 < n
        → n ≤ 4096
        → n ≤ left
        → (step n).0 ≡ true
        → (WellFormed (tables_of c db d (step n).1)
            → Ran c db d g
                (step n).1
                r.0
                r.1
                (content (tables_of c db d (step n).1) g ++ blanks (left - n)))
        → Ran c db d g s r.0 r.1 (content (tables_of c db d s) g ++ blanks left)
    after_step n r pos le le' ok rest =
        follow s (step n).1 r.1 r.0 (content (tables_of c db d s) g) n left le'
          (subst (λ k. Ran c db d g s k (step n).1 (content (tables_of c db d s) g ++ blanks n)) ok
            (step-Ran n pos le))
          (rest ((step-Ran n pos le).changed ok).formed)

    step-Ready :
        (step 4096).0 ≡ true
        → 4096 < left
        → Ready g (tables_of c db d (step 4096).1) (u32 (index + 1)) (left - 4096)
    step-Ready ok big = rw (tables-step 4096 ok) (
        Ready-add g (skipping 4096) index left (ready 4096) (blanks 4096)
          (length-replicate 4096 space) big)

  -- With a round for each byte, blanks follow the file's content, or the loop reports a failure.
  insert_blanks_lem :
      (rounds left index : ℕ) (s : db.State)
      → Ready g (tables_of c db d s) index left
      → left ≤ rounds
      → let r = insert_blanks db rounds g left index s in
        Ran c db d g s r.0 r.1 (content (tables_of c db d s) g ++ blanks left)
  unfolding insert_blanks
  insert_blanks_lem zero left index s h le =
      let e : left ≡ 0 = omega arith in Ran-here c db d g s _ h.formed (rw e (sym (append-nil _)))
  insert_blanks_lem (suc rounds) left index s h le = elim (Bool-cases (left == 0)) [
    | inl none_left ↦
        let e : left ≡ 0 = ground arith in
        rw e (Ran-here c db d g s _ h.formed (sym (append-nil _)))
    | inr some_left ↦ elim (Bool-cases (ltb 4096 left)) [
      | inl big ↦
          let n : at_most block_size left ≡ 4096 = ground arith in
          rw (some_left, n)
            (elim (Bool-cases (step left index s h 4096).0) [
              | inr failed ↦ rw failed (
                  Ran-false c db d g s _ _
                    (step-Ran left index s h 4096 (omega arith) (omega arith)).saved)
              | inl ok ↦ rw ok (
                  after_step left index s h 4096 _ (omega arith) (omega arith) (ground arith) ok
                    (λ w.
                      insert_blanks_lem rounds (left - 4096) (u32 (index + 1)) _
                        (step-Ready left index s h ok (ground arith)) (omega arith)))
            ])
      | inr small ↦
          let n : at_most block_size left ≡ left = ground arith in
          let z : left - left ≡ 0 = omega arith in
          rw (some_left, n)
            (elim (Bool-cases (step left index s h left).0) [
              | inr failed ↦ rw failed (
                  Ran-false c db d g s _ _
                    (step-Ran left index s h left (ground arith) (ground arith)).saved)
              | inl ok ↦
                  rw (ok, z, insert_blanks_zero)
                    (after_step left index s h left (true, (step left index s h left).1)
                      (ground arith) (ground arith) (omega arith) ok
                      (λ w. Ran-here c db d g _ _ w (rw z (sym (append-nil _)))))
            ])
    ]
  ]

  pub insert_blanks_or :
      (left index : ℕ) (s : db.State)
      → WellFormed (tables_of c db d s)
      → (left ≡ 0) ⊎ Ready g (tables_of c db d s) index left
      → let r = insert_blanks db left g left index s in
        Ran c db d g s r.0 r.1 (content (tables_of c db d s) g ++ blanks left)
  insert_blanks_or left index s w (inl z) =
      rw (z, insert_blanks_zero 0 index s) (Ran-here c db d g s _ w (sym (append-nil _)))
  insert_blanks_or left index s w (inr h) = insert_blanks_lem left left index s h (omega arith)
