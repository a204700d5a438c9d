-- ===== src/Tests/Engine.antt =====
-- A server that does what the hypotheses of `Sql.Laws` say, and fails only where a key or a column
-- type demands it. It shows that the hypotheses can be met, and runs the model on examples.
use mathlib.Core.Path.{subst}
use mathlib.Core.Option.{some-injective}
use myfs.Base.{
  sym, ap, arith, ℕ, ◌+◌, ◌≡◌, refl, inl, inr, Bool, true, false, not, ◌&&◌, some, List, [], ◌∷◌,
  map, Bytes, ◌==◌, if◌then◌else◌, Bool-cases, length, take, same_text, same_text_refl,
}
use myfs.Sql.{
  Sql, Statement, rollback, commit, Select, Row, insert_file, insert_block, insert_blank,
  blocks_from, last_block, last_block_size, block_data, file_size, file_row, children_of,
  file_named, count_files, space_used,
}
use myfs.Sql.Tables.{
  Tables, Collation, skipped, Answer, filter, head_of, data_of, from_index, last, find_file,
}
use myfs.Sql.Keys.{accepts}
use myfs.Sql.Steps.{tables_of}
use myfs.Sql.Laws.{View, after, after_skip, AfterFailed, Commits, Documented, Reliable}

-- Names are compared byte by byte, and listed as they come; each byte is a character.
abbrev pub binary : Collation
binary = record {
  same = same_text;
  before = λ a b. false;
  same_self = same_text_refl;
  chars = λ a. some (length a);
}

pub record Server : Type 0 where
  pub view : View
  pub last_id : ℕ

abbrev rows : (q : Select) → Tables → List (Row q)
rows (blocks_from g i n) t = take n (map head_of (from_index i (t.blocks g)))
rows (last_block g) t = map head_of (last (t.blocks g))
rows (last_block_size g) t = map (λ b. (b.data_id, length b.bytes)) (last (t.blocks g))
rows (block_data g i n) t = take n (map data_of (from_index i (t.blocks g)))
rows (file_size g) t = map (λ r. r.size) (find_file g t.files)
rows (file_row g) t = find_file g t.files
rows (children_of p) t =
    map (λ r. r.file_id) (filter (λ r. r.parent_id == p && not (r.file_id == 0)) t.files)
rows (file_named p name) t =
    map (λ r. r.file_id) (filter (λ r. r.parent_id == p && same_text r.name name) t.files)
rows count_files t = length t.files ∷ []
rows (space_used d) t = 0 ∷ []

abbrev run : Statement → Server → Bool × Server
run st s =
    if accepts binary st s.view.tables
    then (true, record { view = after binary 0 st s.view; last_id = s.view.tables.next_file })
    else (false, s)

abbrev pub engine : Sql
engine = record {
  State = Server;
  query = run;
  select = λ q s. (some (rows q s.view.tables), s);
  insert_id = λ s. s.last_id;
}

rows-Answer : (q : Select) (t : Tables) → Answer binary q t (rows q t)
rows-Answer (blocks_from g i n) t = refl
rows-Answer (last_block g) t = refl
rows-Answer (last_block_size g) t = refl
rows-Answer (block_data g i n) t = refl
rows-Answer (file_size g) t = refl
rows-Answer (file_row g) t = refl
rows-Answer (children_of p) t = refl
rows-Answer (file_named p name) t = refl
rows-Answer count_files t = refl
rows-Answer (space_used d) t = tt

skipped-zero : (st : Statement) (t : Tables) → skipped st 0 t ≡ t
skipped-zero (insert_file p name type user group mode) t =
    ap (λ n. record t { next_file = n }) (omega arith)
skipped-zero (insert_block g i bytes) t = ap (λ n. record t { next_block = n }) (omega arith)
skipped-zero (insert_blank g i m) t = ap (λ n. record t { next_block = n }) (omega arith)
skipped-zero _ t = refl

-- No number is passed over.
after_skip-zero : (st : Statement) (v : View) → after binary 0 st v ≡ after_skip binary 0 0 st v
after_skip-zero st v =
    ap (λ x. after binary 0 st (record v { tables = x })) (sym (skipped-zero st v.tables))

run-succeeded :
    (st : Statement) (s : Server)
    → (run st s).0 ≡ true
    → (run st s).1.view ≡ after_skip binary 0 0 st s.view
run-succeeded st s h = elim (Bool-cases (accepts binary st s.view.tables)) [
  | inl ok ↦ rw ok (after_skip-zero st s.view)
  | inr refused ↦ cc (rw refused at h)
]

run-allowed :
    (st : Statement) (s : Server)
    → (run st s).0 ≡ true
    → accepts binary st (skipped st 0 s.view.tables) ≡ true
run-allowed st s h = elim (Bool-cases (accepts binary st s.view.tables)) [
  | inl ok ↦ rw (skipped-zero st s.view.tables) ok
  | inr refused ↦ cc (rw refused at h)
]

refused-AfterFailed :
    (st : Statement) (v : View) → accepts binary st v.tables ≡ false → AfterFailed st v v
unfolding accepts
refused-AfterFailed rollback v refused = cc
refused-AfterFailed commit v refused = cc
refused-AfterFailed _ v refused = refl

run-failed :
    (st : Statement) (s : Server) → (run st s).0 ≡ false → AfterFailed st s.view (run st s).1.view
run-failed st s h = elim (Bool-cases (accepts binary st s.view.tables)) [
  | inl ok ↦ cc (rw ok at h)
  | inr refused ↦ rw refused (refused-AfterFailed st s.view refused)
]

run-accepted :
    (st : Statement) (s : Server) → accepts binary st s.view.tables ≡ true → (run st s).0 ≡ true
run-accepted st s h = rw h

run-inserted :
    (p : ℕ) (name type user group : Bytes) (mode : ℕ) (s : Server)
    → (run (insert_file p name type user group mode) s).0 ≡ true
    → (run (insert_file p name type user group mode) s).1.last_id ≡ s.view.tables.next_file + 0
run-inserted p name type user group mode s h =
    elim (Bool-cases (accepts binary (insert_file p name type user group mode) s.view.tables)) [
      | inl ok ↦ rw ok (omega arith)
      | inr refused ↦ cc (rw refused at h)
    ]

pub engine-Documented : Documented binary engine
unfolding accepts
engine-Documented = record {
  view = λ s. s.view;
  now = λ st s. 0;
  skip = λ st s. 0;
  succeeded = run-succeeded;
  allowed = run-allowed;
  failed = run-failed;
  unchanged = λ q s. refl;
  answered = λ q s rs e.
      subst (Answer binary q s.view.tables) (some-injective _ _ e) (rows-Answer q s.view.tables);
  inserted = run-inserted;
}

pub tables_of-engine : (s : Server) → tables_of binary engine engine-Documented s ≡ s.view.tables
unfolding engine-Documented
tables_of-engine s = refl

pub engine-Reliable : Reliable binary engine engine-Documented
unfolding engine-Documented
engine-Reliable = record { accepted = run-accepted; selected = λ q s. (rows q s.view.tables, refl) }

pub engine-Commits : Commits engine
unfolding accepts
engine-Commits s = refl

-- What it refuses changes nothing, and a ROLLBACK is not refused.
pub refused-same : (st : Statement) (s : Server) → (run st s).0 ≡ false → (run st s).1 ≡ s
refused-same st s h = elim (Bool-cases (accepts binary st s.view.tables)) [
  | inl ok ↦ cc (rw ok at h)
  | inr refused ↦ rw refused refl
]
