-- ===== src/Store/Truncate/Shrink.antt =====
-- The loop of `myfs_db_file_truncate` that removes blocks from the end of a file.
use mathlib.Core.Path.{subst}
use myfs.Base.{
  ℕ, zero, suc, ◌+◌, ◌-◌, ◌≤◌, ◌<◌, ◌≡◌, refl, ap, sym, ◌∙◌, inl, inr, Bool, true, false, some,
  Option-cases, [], ◌∷◌, ◌++◌, Bytes, leb, ◌==◌, Bool-cases, length, length-append,
  length-replicate, arith,
}
use myfs.Sql.{Sql, last_block_size, delete_block, blank_block, Outcome, done}
use myfs.Sql.Tables.{
  Tables, Block, Collation, effect, edit_block, drop_block, with_blocks, last, space,
}
use myfs.Sql.Laws.{Documented}
use myfs.Sql.Steps.{tables_of, tables_after, tables_unchanged}
use myfs.Store.Content.{content, content_of, WellFormed, Changed, Changed-trans, Changed-refl}
use myfs.Store.Content.Packed.{Ends, last-cases, last-nil, front}
use myfs.Store.Content.Steps.{
  edit_block-Changed, drop_block-Changed, Ends-split, last_pos, content_split,
}
use myfs.Store.Block.{block_size, at_most}
use myfs.Store.Truncate.{shrink}
use myfs.Store.Truncate.Blanks.{blanks}
use myfs.Store.Truncate.Cut.{cut, cut-append_whole, cut-append_part}

module _ (c : Collation) (db : Sql) (d : Documented c db) (g : ℕ) where
  -- From `s` to `s'` only the blocks of `g` have changed, to hold `x`.
  pub record Cut (s s' : db.State) (x : Bytes) : Type 0 where
    pub changed : Changed (tables_of c db d s) (tables_of c db d s') g x
    pub files : (tables_of c db d s').files ≡ (tables_of c db d s).files

  Cut-trans : (s s1 s2 : db.State) (x y : Bytes) → Cut s s1 x → Cut s1 s2 y → Cut s s2 y
  Cut-trans s s1 s2 x y p q = record {
    changed = Changed-trans p.changed q.changed;
    files = q.files ∙ p.files;
  }

  shrink_zero : (fuel : ℕ) (s : db.State) → shrink db fuel g 0 s ≡ (done true, s)
  unfolding shrink
  shrink_zero zero s = refl
  shrink_zero (suc fuel) s = refl

  module _ (s : db.State) (w : WellFormed (tables_of c db d s)) (b : Block)
      (e : last ((tables_of c db d s).blocks g) ≡ b ∷ []) where
    abbrev t : Tables
    t = tables_of c db d s

    abbrev x : Bytes
    x = content_of (front (t.blocks g))

    abbrev found : db.State
    found = (db.select (last_block_size g) s).1

    same : tables_of c db d found ≡ t
    same = tables_unchanged c db d (last_block_size g) s

    delete-Cut :
        (db.query (delete_block b.data_id) found).0 ≡ true
        → Cut s (db.query (delete_block b.data_id) found).1 x
    unfolding effect
    delete-Cut ok = record {
      changed = rw now_there (drop_block-Changed t w g b e);
      files = ap (λ (u : Tables). u.files) now_there;
    }
      where
        now_there :
            tables_of c db d (db.query (delete_block b.data_id) found).1
            ≡ with_blocks t (drop_block b.data_id)
        now_there =
            rw same at (tables_after c db d (delete_block b.data_id) found (λ now v. refl) ok)

    blank-Cut :
        (n : ℕ)
        → 0 < n
        → n ≤ 4096
        → (db.query (blank_block b.data_id n) found).0 ≡ true
        → Cut s (db.query (blank_block b.data_id n) found).1 (x ++ blanks n)
    unfolding effect
    blank-Cut n pos le ok = record {
      changed = rw now_there (
          edit_block-Changed t w g b e (λ old. blanks n) (omega (arith, length-replicate n space))
            (omega (arith, length-replicate n space)));
      files = ap (λ (u : Tables). u.files) now_there;
    }
      where
        now_there :
            tables_of c db d (db.query (blank_block b.data_id n) found).1
            ≡ with_blocks t (edit_block b.data_id (λ old. blanks n))
        now_there =
            rw same at (tables_after c db d (blank_block b.data_id n) found (λ now v. refl) ok)

    whole : content t g ≡ x ++ b.bytes
    whole = content_split t w g b e

    -- A round of the loop, where the rounds after it do what they are to.
    module _ (fuel left : ℕ) (pos : 0 < left) (le : left ≤ length (content t g))
        (rest : (left' : ℕ) (s' : db.State)
          → WellFormed (tables_of c db d s')
          → left' ≤ length (content (tables_of c db d s') g)
          → (shrink db fuel g left' s').0 ≡ done true
          → Cut s'
              (shrink db fuel g left' s').1
              (cut left' (content (tables_of c db d s') g))) where
      shrink-delete :
          (db.query (delete_block b.data_id) found).0 ≡ true
          → length b.bytes ≤ left
          → let r =
              shrink db fuel g
                (left - length b.bytes)
                (db.query (delete_block b.data_id) found).1 in
            r.0 ≡ done true → Cut s r.1 (cut left (content t g))
      shrink-delete ok less success =
          let p = delete-Cut ok in
          let s' = (db.query (delete_block b.data_id) found).1 in
          let n : left ≤ length x + length b.bytes =
            omega (arith, ap length whole, length-append x b.bytes) in
          subst (λ y. Cut s (shrink db fuel g (left - length b.bytes) s').1 y)
            (cut-append_whole x b.bytes _ (Ends-split t w g b e).aligned left pos less n
              ∙ ap (cut left) (sym whole))
            (Cut-trans s s' _ x _ p (
              subst
                (λ y.
                  Cut s' (shrink db fuel g (left - length b.bytes) s').1
                    (cut (left - length b.bytes) y))
                p.changed.content_is
                (rest (left - length b.bytes) s' p.changed.formed
                  (rw p.changed.content_is (omega arith)) success)))

      shrink-blank :
          (n : ℕ)
          → n ≡ length b.bytes - left
          → (db.query (blank_block b.data_id n) found).0 ≡ true
          → left < length b.bytes
          → Cut s (db.query (blank_block b.data_id n) found).1 (cut left (content t g))
      shrink-blank n kept ok less =
          subst (λ y. Cut s (db.query (blank_block b.data_id n) found).1 y)
            (ap (λ k. x ++ blanks k) kept
              ∙ cut-append_part x b.bytes _ ends.aligned left pos less ends.fits
              ∙ ap (cut left) (sym whole))
            (blank-Cut n (omega arith) (omega (arith, ends.fits)) ok)
        where
          ends : Ends 0 (front (t.blocks g)) b
          ends = Ends-split t w g b e

      module _
          (there : (db.select (last_block_size g) s).0
            ≡ some ((b.data_id, length b.bytes) ∷ [])) where
        some_left : (left == 0) ≡ false
        some_left = ground arith

        known : (b.data_id == 0) ≡ false
        known = ground (arith, last_pos t w g b e)

        -- What the round leaves, by whether the block is kept and the statement succeeds.
        abbrev Follows : Outcome Bool × db.State → Type 0
        Follows r = r.0 ≡ done true → Cut s r.1 (cut left (content t g))

        from :
            (r : Outcome Bool × db.State)
            → shrink db (suc fuel) g left s ≡ r
            → Follows r
            → Follows (shrink db (suc fuel) g left s)
        from r e h = subst Follows (sym e) h

        abbrev deleted : Bool × db.State
        deleted = db.query (delete_block b.data_id) found

        abbrev blanked : Bool × db.State
        blanked = db.query (blank_block b.data_id (length b.bytes - at_most block_size left)) found

        shrink-round : Follows (shrink db (suc fuel) g left s)
        unfolding shrink
        shrink-round = elim (Bool-cases (leb (length b.bytes) (at_most block_size left))) [
          | inl fits ↦ elim (Bool-cases (db.query (delete_block b.data_id) found).0) [
            | inl ok ↦
                from (shrink db fuel g (left - length b.bytes) deleted.1)
                  (rw (shrink, some_left, there, known, fits, ok) refl)
                  (shrink-delete ok (ground arith))
            | inr failed ↦
                from (done false, deleted.1)
                  (rw (shrink, some_left, there, known, fits, failed) refl) (λ h. cc)
          ]
          | inr larger ↦
              let n : at_most block_size left ≡ left =
                ground (arith, (Ends-split t w g b e).fits) in
              let z : left - at_most block_size left ≡ 0 = omega (arith, n) in
              elim (Bool-cases blanked.0) [
                | inl ok ↦
                    from (done true, blanked.1)
                      (rw (shrink, some_left, there, known, larger, ok, z, shrink_zero fuel) refl)
                      (λ h. shrink-blank _ (omega (arith, n)) ok (ground arith))
                | inr failed ↦
                    from (done false, blanked.1)
                      (rw (shrink, some_left, there, known, larger, failed) refl) (λ h. cc)
              ]
        ]

  -- Where the loop reports success it has cut `left` bytes off the content of the file.
  pub shrink_lem :
      (fuel left : ℕ) (s : db.State)
      → WellFormed (tables_of c db d s)
      → left ≤ length (content (tables_of c db d s) g)
      → (shrink db fuel g left s).0 ≡ done true
      → Cut s (shrink db fuel g left s).1 (cut left (content (tables_of c db d s) g))
  unfolding shrink
  shrink_lem zero left s w le success = elim (Bool-cases (left == 0)) [
    | inl all ↦ rw all (record { changed = Changed-refl g _ w refl; files = refl })
    | inr more ↦ cc (rw more at success)
  ]
  shrink_lem (suc fuel) left s w le success = elim (Bool-cases (left == 0)) [
    | inl all ↦ rw (shrink, all) (record { changed = Changed-refl g _ w refl; files = refl })
    | inr more ↦ elim (Option-cases (db.select (last_block_size g) s).0) [
      | inl lost ↦ cc (rw (shrink, more, lost) at success)
      | inr (rows, there) ↦ elim (last-cases ((tables_of c db d s).blocks g)) [
        | inl none_there ↦
            let pos : 0 < left = ground arith in
            absurd (
              omega (
                arith,
                ap (λ bs. length (content_of bs))
                    (last-nil ((tables_of c db d s).blocks g) none_there),
              ))
        | inr (b, e) ↦
            shrink-round s w b e fuel left (ground arith) le (shrink_lem fuel)
              (there ∙ ap some (rw e at (d.answered (last_block_size g) s rows there))) success
      ]
    ]
  ]
