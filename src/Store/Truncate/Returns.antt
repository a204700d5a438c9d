-- ===== src/Store/Truncate/Returns.antt =====
-- A truncation returns, given fuel for a round for each byte that is cut off.
use myfs.Base.{
  ℕ, zero, suc, ◌+◌, ◌-◌, ◌≤◌, ◌<◌, ◌≡◌, refl, sym, ap, ◌∙◌, inl, inr, Bool, true, false,
  Bool-cases, Option, some, Option-cases, List, [], ◌∷◌, All, map, ltb, leb, ◌==◌, length, arith,
}
use mathlib.Core.Path.{subst}
use myfs.Sql.{
  Sql, FileRow, start_transaction, last_block_size, file_size, set_size, blank_block, delete_block,
  Outcome, done, fault, running,
}
use myfs.Sql.Tables.{Block, Collation, effect, drop_block, last, find_file}
use myfs.Sql.Laws.{Documented}
use myfs.Sql.Steps.{tables_of, tables_after, tables_unchanged, start_tables}
use myfs.Store.Block.{block_size, at_most}
use myfs.Store.Content.{Packed, WellFormed}
use myfs.Store.Content.Packed.{last-cases}
use myfs.Store.Truncate.{grow, shrink, resize, truncate_body, truncate_end, truncate}

-- No block is empty, or longer than a block.
abbrev IsSized : Block → Type 0
IsSized b = (0 < length b.bytes) × (length b.bytes ≤ 4096)

Packed-IsSized : (i : ℕ) (bs : List Block) → Packed i bs → All IsSized bs
Packed-IsSized i [] h = tt
Packed-IsSized i (b ∷ []) h = ((h.1, h.2), tt)
Packed-IsSized i (b ∷ e ∷ r) h = ((omega arith, omega arith), Packed-IsSized (suc i) (e ∷ r) h.2)

All-drop_block : (k : ℕ) (bs : List Block) → All IsSized bs → All IsSized (drop_block k bs)
All-drop_block k [] h = tt
All-drop_block k (b ∷ r) h = elim (Bool-cases (b.data_id == k)) [
  | inl same ↦ rw same (All-drop_block k r h.1)
  | inr kept ↦ rw kept (h.0, All-drop_block k r h.1)
]

last-IsSized : (bs : List Block) (b : Block) → last bs ≡ b ∷ [] → All IsSized bs → IsSized b
last-IsSized [] b e h = cc
last-IsSized (a ∷ []) b e h = (subst (λ x. All IsSized x) e h).0
last-IsSized (a ∷ x ∷ r) b e h = last-IsSized (x ∷ r) b e h.1

-- The row that the query for the last block gives.
row-IsSized :
    (bs : List Block) (k len : ℕ) (rows : List (ℕ × ℕ))
    → (k, len) ∷ rows ≡ map (λ b. (b.data_id, length b.bytes)) (last bs)
    → All IsSized bs
    → (0 < len) × (len ≤ 4096)
row-IsSized bs k len rows e h = elim (last-cases bs) [
  | inl none_there ↦ cc (rw none_there at e)
  | inr (b, there) ↦
      let same : len ≡ length b.bytes =
        ap (λ (l : List (ℕ × ℕ)). len_of l)
          (e ∙ ap (map (λ b. (b.data_id, length b.bytes))) there) in
      let (pos, le) = last-IsSized bs b there h in (omega arith, omega arith)
]
  where
    len_of : List (ℕ × ℕ) → ℕ
    len_of [] = 0
    len_of (r ∷ rs) = r.1

-- The file has at most `n` bytes.
abbrev pub IsNear : ℕ → FileRow → Type 0
IsNear n r = r.size ≤ n

found-IsNear :
    (g n : ℕ) (fs : List FileRow) (current : ℕ) (rows : List ℕ)
    → current ∷ rows ≡ map (λ r. r.size) (find_file g fs)
    → All (IsNear n) fs
    → current ≤ n
found-IsNear g n [] current rows e h = cc
found-IsNear g n (r ∷ fs) current rows e h = elim (Bool-cases (r.file_id == g)) [
  | inl this ↦
      let same : current ≡ r.size = ap (head_or 0) (rw this at e) in
      let le : r.size ≤ n = h.0 in omega arith
  | inr other ↦ found-IsNear g n fs current rows (rw other at e) h.1
]
  where
    head_or : ℕ → List ℕ → ℕ
    head_or z [] = z
    head_or z (x ∷ xs) = x

abbrev pub Returns : Outcome Bool → Type 0
Returns r = (success : Bool) × (r ≡ done success)

module _ (c : Collation) (db : Sql) (d : Documented c db) (g : ℕ) where
  shrink-Returns :
      (fuel left : ℕ) (s : db.State)
      → left ≤ fuel
      → All IsSized ((tables_of c db d s).blocks g)
      → Returns (shrink db fuel g left s).0
  unfolding shrink effect
  shrink-Returns zero left s le h = (true, ground arith)
  shrink-Returns (suc fuel) left s le h = elim (Bool-cases (left == 0)) [
    | inl all ↦ rw (shrink, all) (true, refl)
    | inr more ↦ elim (Option-cases found.0) [
      | inl lost ↦ rw (shrink, more, lost) (false, refl)
      | inr ([], there) ↦ rw (shrink, more, there) (false, refl)
      | inr ((k, len) ∷ rows, there) ↦ elim (Bool-cases (k == 0)) [
        | inl no_row ↦ rw (shrink, more, there, no_row) (false, refl)
        | inr row ↦ elim (Bool-cases (leb len n)) [
          | inl whole ↦ elim (Bool-cases (db.query (delete_block k) found.1).0) [
            | inl ok ↦
                rw (shrink, more, there, row, whole, ok)
                  (shrink-Returns fuel (left - len) (db.query (delete_block k) found.1).1
                    (less k len rows there whole) (deleted k ok))
            | inr failed ↦ rw (shrink, more, there, row, whole, failed) (false, refl)
          ]
          | inr part ↦ elim (Bool-cases (db.query (blank_block k (len - n)) found.1).0) [
            | inl ok ↦
                rw (shrink, more, there, row, part, ok)
                  (nothing_left fuel (db.query (blank_block k (len - n)) found.1).1
                    (none_left k len rows there part))
            | inr failed ↦ rw (shrink, more, there, row, part, failed) (false, refl)
          ]
        ]
      ]
    ]
  ]
    where
      n : ℕ
      n = at_most block_size left

      found : Option (List (ℕ × ℕ)) × db.State
      found = db.select (last_block_size g) s

      same : tables_of c db d found.1 ≡ tables_of c db d s
      same = tables_unchanged c db d (last_block_size g) s

      sized :
          (k len : ℕ) (rows : List (ℕ × ℕ))
          → found.0 ≡ some ((k, len) ∷ rows)
          → (0 < len) × (len ≤ 4096)
      sized k len rows there =
          row-IsSized ((tables_of c db d s).blocks g) k len rows
            (d.answered (last_block_size g) s ((k, len) ∷ rows) there) h

      less :
          (k len : ℕ) (rows : List (ℕ × ℕ))
          → found.0 ≡ some ((k, len) ∷ rows)
          → leb len n ≡ true
          → left - len ≤ fuel
      less k len rows there whole = let (pos, le') = sized k len rows there in ground arith

      none_left :
          (k len : ℕ) (rows : List (ℕ × ℕ))
          → found.0 ≡ some ((k, len) ∷ rows)
          → leb len n ≡ false
          → left - n ≡ 0
      none_left k len rows there part = let (pos, le') = sized k len rows there in ground arith

      deleted :
          (k : ℕ)
          → (db.query (delete_block k) found.1).0 ≡ true
          → All IsSized ((tables_of c db d (db.query (delete_block k) found.1).1).blocks g)
      deleted k ok =
          subst (λ t. All IsSized (t.blocks g))
            (sym (tables_after c db d (delete_block k) found.1 (λ now v. refl) ok))
            (subst (λ t. All IsSized (drop_block k (t.blocks g))) (sym same)
              (All-drop_block k ((tables_of c db d s).blocks g) h))

      nothing_left :
          (fuel : ℕ) (s' : db.State) → left - n ≡ 0 → Returns (shrink db fuel g (left - n) s').0
      nothing_left zero s' e = (true, ground arith)
      nothing_left (suc f) s' e = (true, rw e refl)

  resize-Returns :
      (fuel size current : ℕ) (s : db.State)
      → current ≤ size + fuel
      → All IsSized ((tables_of c db d s).blocks g)
      → Returns (resize db fuel g size current s).0
  unfolding resize effect
  resize-Returns fuel size current s le h = elim (Bool-cases (size == current)) [
    | inl same ↦ rw (resize, same) (true, refl)
    | inr differs ↦ elim (Bool-cases sent.0) [
      | inr failed ↦ rw (resize, differs, failed) (false, refl)
      | inl ok ↦ elim (Bool-cases (ltb current size)) [
        | inl larger ↦
            rw (resize, differs, ok, larger) ((grow db g (size - current) sent.1).0, refl)
        | inr smaller ↦
            rw (resize, differs, ok, smaller)
              (shrink-Returns fuel (current - size) sent.1 (omega arith) (
                subst (λ t. All IsSized (t.blocks g))
                  (sym (tables_after c db d (set_size g size) s (λ now v. refl) ok)) h))
      ]
    ]
  ]
    where
      sent : Bool × db.State
      sent = db.query (set_size g size) s

  truncate_body-Returns :
      (fuel size : ℕ) (s : db.State)
      → All (IsNear (size + fuel)) (tables_of c db d s).files
      → All IsSized ((tables_of c db d s).blocks g)
      → Returns (truncate_body db fuel g size s).0
  unfolding truncate_body
  truncate_body-Returns fuel size s near h = elim (Option-cases found.0) [
    | inl lost ↦ rw (truncate_body, lost) (false, refl)
    | inr ([], there) ↦ rw (truncate_body, there) (false, refl)
    | inr (current ∷ rows, there) ↦
        rw (truncate_body, there)
          (resize-Returns fuel size current found.1
            (found-IsNear g (size + fuel) (tables_of c db d s).files current rows
              (d.answered (file_size g) s (current ∷ rows) there) near)
            (subst (λ t. All IsSized (t.blocks g)) (sym (tables_unchanged c db d (file_size g) s))
              h))
  ]
    where
      found : Option (List ℕ) × db.State
      found = db.select (file_size g) s

  truncate_end-Returns :
      (r : Outcome Bool) (s : db.State) → Returns r → Returns (truncate_end db r s).0
  unfolding truncate_end
  truncate_end-Returns (done success) s h = (success, refl)
  truncate_end-Returns fault s (success, e) = cc
  truncate_end-Returns running s (success, e) = cc

  -- Where the tables are well-formed, and no file is more than `fuel` bytes larger than the size that
  -- is asked for, `truncate` returns a Boolean with that fuel, whichever statements fail: it neither
  -- faults nor is it still running.
  pub truncate-Returns :
      (fuel size : ℕ) (s : db.State)
      → WellFormed (tables_of c db d s)
      → All (IsNear (size + fuel)) (tables_of c db d s).files
      → Returns (truncate db fuel g size s).0
  unfolding truncate
  truncate-Returns fuel size s w near = elim (Bool-cases begun.0) [
    | inr not_begun ↦ rw (truncate, not_begun) (false, refl)
    | inl began ↦ rw (truncate, began) (truncate_end-Returns r.0 r.1 body)
  ]
    where
      begun : Bool × db.State
      begun = db.query start_transaction s

      r : Outcome Bool × db.State
      r = truncate_body db fuel g size begun.1

      same : tables_of c db d begun.1 ≡ tables_of c db d s
      same = start_tables c db d s

      body : Returns r.0
      body =
          truncate_body-Returns fuel size begun.1
            (subst (λ t. All (IsNear (size + fuel)) t.files) (sym same) near)
            (subst (λ t. All IsSized (t.blocks g)) (sym same)
              (Packed-IsSized 0 ((tables_of c db d s).blocks g) (w.packed g)))
