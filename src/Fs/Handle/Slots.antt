-- ===== src/Fs/Handle/Slots.antt =====
-- What opening and closing do to the table of open files.
use mathlib.Core.Path.{subst}
use mathlib.Core.Option.{some-injective}
use myfs.Base.{
  ℕ, zero, suc, ◌+◌, ◌<◌, ◌≡◌, refl, ap, sym, ◌∙◌, inl, inr, Bool, true, false, not, ◌&&◌, ◌≢◌,
  Option, none, some, Option-cases, List, [], ◌∷◌, Bytes, length, arith,
}
use myfs.Sql.{Sql, Outcome, Outcome-cases, done, fault, running}
use myfs.Store.Query.{File, file_id}
use myfs.Store.Truncate.{truncate}
use myfs.Fs.Context.{Reply, ok, err, Around, Myfs, slot, at_slot, with_conn}
use myfs.Fs.Walk.{file_get}
use myfs.Fs.Handle.{first_free, install, open_file, open_helper, release_helper}

-- No slot below `n` is free.
abbrev pub AllUsed : List (Option File) → ℕ → Type 0
AllUsed files n = (i : ℕ) → i < n → (f : File) × (slot files i ≡ some (some f))

-- The loop stops at the first slot that is free.
abbrev Stops : ℕ → List (Option File) → Option ℕ → Type 0
Stops fh files none = AllUsed files (length files)
Stops fh files (some k) = (n : ℕ) × (k ≡ fh + n) × (slot files n ≡ some none) × AllUsed files n

AllUsed-cons :
    (f : File) (files : List (Option File)) (n : ℕ)
    → AllUsed files n
    → AllUsed (some f ∷ files) (suc n)
AllUsed-cons f files n h zero lt = (f, refl)
AllUsed-cons f files n h (suc i) lt = h i (omega arith)

Stops-cons :
    (fh : ℕ) (f : File) (files : List (Option File)) (r : Option ℕ)
    → Stops (fh + 1) files r
    → Stops fh (some f ∷ files) r
Stops-cons fh f files none h = AllUsed-cons f files (length files) h
Stops-cons fh f files (some k) (n, e, free, used) =
    (suc n, omega arith, free, AllUsed-cons f files n used)

first_free-Stops : (fh : ℕ) (files : List (Option File)) → Stops fh files (first_free fh files)
unfolding first_free
first_free-Stops fh [] = λ i lt. absurd (omega arith)
first_free-Stops fh (none ∷ files) = (0, omega arith, refl, λ i lt. absurd (omega arith))
first_free-Stops fh (some f ∷ files) =
    Stops-cons fh f files (first_free (fh + 1) files) (first_free-Stops (fh + 1) files)

-- `open_helper` looks for a handle from 0 on: it gives the least that is not in use, and none only
-- if every handle of the table is in use.
first_free_lem :
    (files : List (Option File))
    → ((first_free 0 files ≡ none) → AllUsed files (length files))
      × ((fh : ℕ) → first_free 0 files ≡ some fh → (slot files fh ≡ some none) × AllUsed files fh)
first_free_lem files = (
  (λ full. subst (Stops 0 files) full (first_free-Stops 0 files)),
  λ fh there. from_zero fh (subst (Stops 0 files) there (first_free-Stops 0 files)),
)
  where
    from_zero : (fh : ℕ) → Stops 0 files (some fh) → (slot files fh ≡ some none) × AllUsed files fh
    from_zero fh (n, e, free, used) =
        let same : n ≡ fh = omega arith in
        subst (λ k. (slot files k ≡ some none) × AllUsed files k) same (free, used)

set-get_elem? :
    (files : List (Option File)) (fh : ℕ) (f : Option File)
    → slot files fh ≡ some none
    → (slot (at_slot files fh f) fh ≡ some f) × (at_slot (at_slot files fh f) fh none ≡ files)
set-get_elem? [] fh f h = cc
set-get_elem? (x ∷ files) zero f h = (refl, ap (λ y. y ∷ files) (sym (some-injective x none h)))
set-get_elem? (x ∷ files) (suc fh) f h =
    let (a, b) = set-get_elem? files fh f h in (a, ap (λ l. x ∷ l) b)

module _ (db : Sql) (a : Around) where
  -- What a call of `open_helper` that gives a handle has done: the handle was free, and now holds a
  -- file; the other slots are as before.
  abbrev Opened : Myfs db → Outcome (Reply ℕ) → Myfs db → Type 0
  Opened m (done (ok fh)) m' =
      (slot m.files fh ≡ some none)
      × AllUsed m.files fh
      × (f : File) × (m'.files ≡ at_slot m.files fh (some f))
  Opened m _ m' = m'.files ≡ m.files

  install-Opened :
      (fh : ℕ) (f : File) (m : Myfs db)
      → first_free 0 m.files ≡ some fh
      → Opened m (install db a fh f m).0 (install db a fh f m).1
  unfolding install
  install-Opened fh f m e =
      let (free, used) = (first_free_lem m.files).1 fh e in (free, used, f, refl)

  open_file-Opened :
      (cut : Bool) (fh : ℕ) (f : File) (m : Myfs db)
      → first_free 0 m.files ≡ some fh
      → Opened m (open_file db a cut fh f m).0 (open_file db a cut fh f m).1
  unfolding open_file
  open_file-Opened false fh f m e = install-Opened fh f m e
  open_file-Opened true fh f m e = elim (Outcome-cases cut.0) [
    | inl broken ↦ rw (broken, open_file) refl
    | inr (inl long) ↦ rw (long, open_file) refl
    | inr (inr (true, cut_off)) ↦
        rw (cut_off, open_file) (install-Opened fh f (with_conn m cut.1) e)
    | inr (inr (false, failed)) ↦ rw (failed, open_file) refl
  ]
    where
      cut : Outcome Bool × db.State
      cut = truncate db a.fuel (file_id f) 0 m.conn

  open_helper-Opened :
      (path : Bytes) (dir cut : Bool) (m : Myfs db)
      → Opened m (open_helper db a path dir cut m).0 (open_helper db a path dir cut m).1
  unfolding open_helper
  open_helper-Opened path dir cut m = elim (Option-cases (first_free 0 m.files)) [
    | inl full ↦ rw (full, open_helper) refl
    | inr (fh, free) ↦ elim (Outcome-cases file.0) [
      | inl broken ↦ rw (free, open_helper, broken) refl
      | inr (inl long) ↦ rw (free, open_helper, long) refl
      | inr (inr (none, missing)) ↦ rw (free, open_helper, missing) refl
      | inr (inr (some f, there)) ↦
          rw (free, open_helper, there)
            (open_file-Opened (not dir && cut) fh f (with_conn m file.1) free)
    ]
  ]
    where
      file : Outcome (Option File) × db.State
      file = file_get db a.host a.fuel path dir m.conn

  release_helper-used :
      (fh : ℕ) (f : File) (m : Myfs db)
      → slot m.files fh ≡ some (some f)
      → ((release_helper db a fh m).0 ≡ done (ok tt))
        × ((release_helper db a fh m).1.files ≡ at_slot m.files fh none)
  unfolding release_helper
  release_helper-used fh f m e = rw (e, release_helper) (refl, refl)

  -- Where `open_helper` gives a handle, that handle was the least that was not in use, and to
  -- release it succeeds and leaves the table of open files as it was before the file was opened.
  pub release_helper-open_helper :
      (path : Bytes) (dir cut : Bool) (fh : ℕ) (m : Myfs db)
      → (open_helper db a path dir cut m).0 ≡ done (ok fh)
      → let r = release_helper db a fh (open_helper db a path dir cut m).1 in
        (slot m.files fh ≡ some none)
        × AllUsed m.files fh
        × (r.0 ≡ done (ok tt))
        × (r.1.files ≡ m.files)
  release_helper-open_helper path dir cut fh m e =
      let (free, used, f, files) =
        subst (λ r. Opened m r (open_helper db a path dir cut m).1) e
          (open_helper-Opened path dir cut m) in
      let (there, back) = set-get_elem? m.files fh (some f) free in
      let (closed, cleared) =
        release_helper-used fh f (open_helper db a path dir cut m).1
          (ap (λ l. slot l fh) files ∙ there) in
      (free, used, closed, cleared ∙ ap (λ l. at_slot l fh none) files ∙ back)

  -- Where `open_helper` gives no handle, the table of open files is as it was.
  pub open_helper-kept :
      (path : Bytes) (dir cut : Bool) (m : Myfs db)
      → ((fh : ℕ) → (open_helper db a path dir cut m).0 ≢ done (ok fh))
      → (open_helper db a path dir cut m).1.files ≡ m.files
  open_helper-kept path dir cut m no_handle =
      kept (open_helper db a path dir cut m).0 refl (open_helper-Opened path dir cut m)
    where
      kept :
          (r : Outcome (Reply ℕ))
          → (open_helper db a path dir cut m).0 ≡ r
          → Opened m r (open_helper db a path dir cut m).1
          → (open_helper db a path dir cut m).1.files ≡ m.files
      kept (done (ok fh)) e h = absurd (no_handle fh e)
      kept (done (err n)) e h = h
      kept fault e h = h
      kept running e h = h
