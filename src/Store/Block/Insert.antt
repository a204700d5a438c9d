-- ===== src/Store/Block/Insert.antt =====
-- The loop that adds blocks at the end of a file, on well-formed tables.
use mathlib.Core.Path.{subst}
use myfs.Base.{
  ℕ, zero, suc, ◌+◌, ◌-◌, ◌≤◌, ◌<◌, ◌≡◌, refl, ap, sym, ◌∙◌, ◌⊎◌, inl, inr, Bool, true, false, ◌++◌,
  Bytes, ltb, ◌==◌, Bool-cases, length, take, drop, u32, length-take, length-drop, append-nil,
  append_assoc, drop-drop, take-split, arith,
}
use myfs.Sql.{Sql, insert_block}
use myfs.Sql.Tables.{Tables, Collation, add_block, effect}
use myfs.Sql.Keys.{has_file}
use myfs.Sql.Laws.{Documented, Reliable}
use myfs.Sql.Steps.{tables_of, saved_of, tables_after, saved_after}
use myfs.Store.Content.{content, WellFormed, Changed, Changed-trans, Changed-refl}
use myfs.Store.Content.Room.{ahead, Ready-ahead, Changed-ahead, Ready, Ready-Changed, Ready-add}
use myfs.Store.Content.Allowed.{is_free-end}
use myfs.Sql.Accept.{accepts-insert_block}
use myfs.Store.Block.{block_size, at_most, insert_blocks}

module _ (c : Collation) (db : Sql) (d : Documented c db) (g : ℕ) where
  -- From `s` to `s'`, where `success` is reported: what a ROLLBACK returns to stays, and on success
  -- only the blocks of `g` have changed, to hold `x`.
  pub record Ran (s : db.State) (success : Bool) (s' : db.State) (x : Bytes) : Type 0 where
    pub saved : saved_of c db d s' ≡ saved_of c db d s
    pub changed : success ≡ true → Changed (tables_of c db d s) (tables_of c db d s') g x
    pub files : success ≡ true → (tables_of c db d s').files ≡ (tables_of c db d s).files

  pub Ran-here :
      (s : db.State) (x : Bytes)
      → WellFormed (tables_of c db d s)
      → content (tables_of c db d s) g ≡ x
      → Ran s true s x
  Ran-here s x w e = record { saved = refl; changed = λ _. Changed-refl g x w e; files = λ _. refl }

  pub Ran-false :
      (s s' : db.State) (x : Bytes) → saved_of c db d s' ≡ saved_of c db d s → Ran s false s' x
  Ran-false s s' x e = record { saved = e; changed = λ h. cc; files = λ h. cc }

  pub Ran-trans :
      (s s1 s2 : db.State) (success : Bool) (x y : Bytes)
      → Ran s true s1 x
      → Ran s1 success s2 y
      → Ran s success s2 y
  Ran-trans s s1 s2 success x y p q = record {
    saved = q.saved ∙ p.saved;
    changed = λ ok. Changed-trans (p.changed refl) (q.changed ok);
    files = λ ok. q.files ok ∙ p.files refl;
  }

  insert_blocks_zero :
      (rounds : ℕ) (bytes : Bytes) (written index : ℕ) (s : db.State)
      → insert_blocks db rounds g bytes written 0 index s ≡ (true, s)
  unfolding insert_blocks
  insert_blocks_zero zero bytes written index s = refl
  insert_blocks_zero (suc rounds) bytes written index s = refl

  nothing_left : (left : ℕ) (x ys : Bytes) → left ≡ 0 → x ≡ x ++ take left ys
  nothing_left left x ys e = rw e (sym (append-nil x))

  module _ (bytes : Bytes) (written left index : ℕ) (s : db.State) (more : 0 < left) where
    abbrev chunk : Bytes
    chunk = take (at_most block_size left) (drop written bytes)

    abbrev step : Bool × db.State
    step = db.query (insert_block g index chunk) s

    module _ (h : Ready g (tables_of c db d s) index left)
        (fits : left ≤ length (drop written bytes)) where
      length-chunk : length chunk ≡ at_most block_size left
      length-chunk = ground (arith, length-take (at_most block_size left) (drop written bytes))

      -- The tables with the numbers that the INSERT passes over.
      abbrev skipping : Tables
      skipping = ahead (d.skip (insert_block g index chunk) s) (tables_of c db d s)

      ready : Ready g skipping index left
      ready = Ready-ahead g (tables_of c db d s) index left _ h

      tables-step : step.0 ≡ true → tables_of c db d step.1 ≡ add_block g index chunk skipping
      unfolding effect
      tables-step ok = tables_after c db d (insert_block g index chunk) s (λ now v. refl) ok

      step-Ran : Ran s step.0 step.1 (content (tables_of c db d s) g ++ chunk)
      step-Ran = record {
        saved = saved_after c db d (insert_block g index chunk) s (λ now v. refl);
        changed = λ ok. rw (tables-step ok) (
            Changed-ahead g (tables_of c db d s) (add_block g index chunk skipping) _ _ (
              Ready-Changed g skipping index left ready chunk (ground (arith, length-chunk))
                (ground (arith, length-chunk))));
        files = λ ok. ap (λ (t : Tables). t.files) (tables-step ok);
      }

      step-Ready :
          step.0 ≡ true
          → 4096 < left
          → Ready g (tables_of c db d step.1) (u32 (index + 1)) (left - 4096)
      step-Ready ok big =
          rw (tables-step ok)
            (Ready-add g skipping index left ready chunk (ground (arith, length-chunk)) big)

      step_done : Reliable c db d → has_file g (tables_of c db d s) ≡ true → step.0 ≡ true
      step_done r row = r.accepted (insert_block g index chunk) s (
          accepts-insert_block c g index (tables_of c db d s) row
            (rw h.at_end (is_free-end (tables_of c db d s) g h.formed)) chunk
            (ground (arith, length-chunk)))

      step-has_file :
          step.0 ≡ true
          → has_file g (tables_of c db d s) ≡ true
          → has_file g (tables_of c db d step.1) ≡ true
      step-has_file ok row = rw (tables-step ok) row

      abbrev rest : ℕ → ℕ → Bool × db.State
      rest rounds w =
          insert_blocks db rounds g bytes (written + w) (left - w) (u32 (index + 1)) step.1

      abbrev goal : Bytes
      goal = content (tables_of c db d s) g ++ take left (drop written bytes)

      -- What the chunk and the loop after it leave, if the loop adds what follows the chunk.
      follow :
          (w : ℕ) (r : Bool × db.State)
          → step.0 ≡ true
          → at_most block_size left ≡ w
          → w ≤ left
          → Ran step.1 r.0 r.1
              (content (tables_of c db d step.1) g ++ take (left - w) (drop (written + w) bytes))
          → Ran s r.0 r.1 goal
      follow w r ok e le p =
          Ran-trans s step.1 r.1 r.0 (content (tables_of c db d s) g ++ chunk) goal
            (subst (λ b. Ran s b step.1 (content (tables_of c db d s) g ++ chunk)) ok step-Ran)
            (subst (λ x. Ran step.1 r.0 r.1 x) same p)
        where
          ys : Bytes
          ys = drop written bytes

          now_there : content (tables_of c db d step.1) g ≡ content (tables_of c db d s) g ++ chunk
          now_there = (step-Ran.changed ok).content_is

          same :
              content (tables_of c db d step.1) g ++ take (left - w) (drop (written + w) bytes)
              ≡ goal
          same =
              rw (now_there, e, drop-drop written w bytes)
                (append_assoc (content (tables_of c db d s) g) (take w ys)
                    (take (left - w) (drop w ys))
                  ∙ ap (λ z. content (tables_of c db d s) g ++ z) (take-split w left ys le))

      after_step :
          (rounds : ℕ)
          → step.0 ≡ true
          → (4096 < left
              → Ready g (tables_of c db d step.1) (u32 (index + 1)) (left - 4096)
              → Ran step.1 (rest rounds 4096).0 (rest rounds 4096).1 (
                  content (tables_of c db d step.1) g
                  ++ take (left - 4096) (drop (written + 4096) bytes)))
          → Ran s
              (rest rounds (at_most block_size left)).0
              (rest rounds (at_most block_size left)).1
              goal
      after_step rounds ok ih = elim (Bool-cases (ltb 4096 left)) [
        | inl big ↦
            let e : at_most block_size left ≡ 4096 = ground arith in
            rw e (
              follow 4096 (rest rounds 4096) ok e (ground arith)
                (ih (ground arith) (step-Ready ok (ground arith))))
        | inr small ↦
            let e : at_most block_size left ≡ left = ground arith in
            rw e (
              follow left (rest rounds left) ok e (omega arith)
                (nothing_more (left - left) (omega arith)))
      ]
        where
          formed_now : WellFormed (tables_of c db d step.1)
          formed_now = (step-Ran.changed ok).formed

          nothing_more :
              (m : ℕ)
              → m ≡ 0
              → let r =
                  insert_blocks db rounds g bytes (written + left) m (u32 (index + 1)) step.1 in
                Ran step.1 r.0 r.1
                  (content (tables_of c db d step.1) g ++ take m (drop (written + left) bytes))
          nothing_more m z =
              rw (z, insert_blocks_zero rounds bytes (written + left) (u32 (index + 1)) step.1)
                (Ran-here step.1 _ formed_now
                  (sym (append-nil (content (tables_of c db d step.1) g))))

  -- Whatever the rounds, if they are as many as the bytes left, the bytes follow the file's content,
  -- or the loop reports a failure.
  pub insert_blocks_lem :
      (rounds : ℕ) (bytes : Bytes) (written left index : ℕ) (s : db.State)
      → Ready g (tables_of c db d s) index left
      → left ≤ rounds
      → left ≤ length (drop written bytes)
      → let r = insert_blocks db rounds g bytes written left index s in
        Ran s r.0 r.1 (content (tables_of c db d s) g ++ take left (drop written bytes))
  unfolding insert_blocks
  insert_blocks_lem zero bytes written left index s h r f =
      Ran-here s _ h.formed (nothing_left left _ (drop written bytes) (omega arith))
  insert_blocks_lem (suc rounds) bytes written left index s h r f = elim (Bool-cases (left == 0)) [
    | inl none_left ↦
        rw none_left
          (Ran-here s _ h.formed (nothing_left left _ (drop written bytes) (ground arith)))
    | inr some_left ↦ elim (Bool-cases (step bytes written left index s (ground arith)).0) [
      | inr no_effect ↦
          rw (some_left, no_effect)
            (Ran-false s _ _ (step-Ran bytes written left index s (ground arith) h f).saved)
      | inl ok ↦
          rw (some_left, ok)
            (after_step bytes written left index s (ground arith) h f rounds ok (λ big ready.
              insert_blocks_lem rounds bytes (written + 4096) (left - 4096) (u32 (index + 1)) _
                ready (omega arith)
                (omega (arith, length-drop written bytes, length-drop (written + 4096) bytes))))
    ]
  ]

  -- The same where nothing may be left, and then nothing is demanded of the file's end.
  pub insert_blocks_or :
      (bytes : Bytes) (written left index : ℕ) (s : db.State)
      → WellFormed (tables_of c db d s)
      → (left ≡ 0) ⊎ Ready g (tables_of c db d s) index left
      → left ≤ length (drop written bytes)
      → let r = insert_blocks db left g bytes written left index s in
        Ran s r.0 r.1 (content (tables_of c db d s) g ++ take left (drop written bytes))
  insert_blocks_or bytes written left index s w (inl z) f =
      rw (z, insert_blocks_zero 0 bytes written index s)
        (Ran-here s _ w (sym (append-nil (content (tables_of c db d s) g))))
  insert_blocks_or bytes written left index s w (inr h) f =
      insert_blocks_lem left bytes written left index s h (omega arith) f

  -- On a reliable server the loop succeeds, where the file has its row.
  module _ (r : Reliable c db d) where
    pub insert_blocks_done :
        (rounds : ℕ) (bytes : Bytes) (written left index : ℕ) (s : db.State)
        → Ready g (tables_of c db d s) index left
        → has_file g (tables_of c db d s) ≡ true
        → left ≤ length (drop written bytes)
        → (insert_blocks db rounds g bytes written left index s).0 ≡ true
    unfolding insert_blocks
    insert_blocks_done zero bytes written left index s h row f = refl
    insert_blocks_done (suc rounds) bytes written left index s h row f =
        elim (Bool-cases (left == 0)) [
          | inl none_left ↦ rw none_left
          | inr some_left ↦
              let more : 0 < left = ground arith in
              let ok = step_done bytes written left index s more h f r row in
              elim (Bool-cases (ltb 4096 left)) [
                | inr small ↦
                    let e : left - at_most block_size left ≡ 0 = ground arith in
                    rw (some_left, ok, e, insert_blocks_zero)
                | inl big ↦
                    let e : at_most block_size left ≡ 4096 = ground arith in
                    rw (some_left, ok)
                      (subst (λ w. (rest bytes written left index s more h f rounds w).0 ≡ true)
                        (sym e)
                        (insert_blocks_done rounds bytes (written + 4096) (left - 4096)
                          (u32 (index + 1)) _
                          (step-Ready bytes written left index s more h f ok (ground arith))
                          (step-has_file bytes written left index s more h f ok row)
                          (omega (
                            arith,
                            length-drop written bytes,
                            length-drop (written + 4096) bytes,
                          ))))
              ]
        ]

    pub insert_blocks_or_done :
        (bytes : Bytes) (written left index : ℕ) (s : db.State)
        → (left ≡ 0) ⊎ Ready g (tables_of c db d s) index left
        → has_file g (tables_of c db d s) ≡ true
        → left ≤ length (drop written bytes)
        → (insert_blocks db left g bytes written left index s).0 ≡ true
    insert_blocks_or_done bytes written left index s (inl z) row f = rw (z, insert_blocks_zero)
    insert_blocks_or_done bytes written left index s (inr h) row f =
        insert_blocks_done left bytes written left index s h row f
