-- ===== src/Fs/Change/Makes.antt =====
-- What myfs_mkdir of src/myfs/myfs.c adds, on a server on which nothing fails.
use mathlib.Core.Path.{subst}
use myfs.Base.{
  ℕ, ◌+◌, ◌^◌, ◌<◌, ◌≡◌, refl, sym, ap, ◌∙◌, inl, inr, Bool, true, false, Bool-cases, Option, none,
  some, [], ◌∷◌, Bytes, ◌==◌, if◌then◌else◌, u32, arith,
}
use myfs.Sql.{Sql, Statement, insert_file, Outcome, done, fault, running}
use myfs.Sql.Tables.{Tables, Collation, effect, skipped}
use myfs.Sql.Keys.{accepts}
use myfs.Sql.Laws.{View, Documented, Reliable}
use myfs.Sql.Steps.{tables_of, tables_after}
use myfs.Store.Kind.{directory, file_type_str}
use myfs.Store.Meta.{create, create_mode}
use myfs.Store.Query.{Host, File, file_id}
use myfs.Store.Query.Tree.{IsTree}
use myfs.Store.Query.One.{found_id}
use myfs.Reclaimer.{Reclaimer, general, notify}
use myfs.Text.Path.{tokens, util_dirname, util_basename}
use myfs.Fs.Context.{Reply, ok, err, enoent, eio, Around, Myfs, with_conn, notified}
use myfs.Fs.Walk.{file_get}
use myfs.Fs.Walk.Finds.{find_below, Leads, file_get-Leads}
use myfs.Fs.Change.{mkdir, create_below, with_file, dir_size, name_size}
use myfs.Fs.Change.Removes.{left_by}

-- The row of a new directory.
abbrev pub new_directory : Host → Bytes → ℕ → ℕ → Statement
new_directory host path mode parent =
    insert_file parent (util_basename path name_size) (file_type_str directory) host.user host.group
      (create_mode directory mode)

module _ (c : Collation) (a : Around) (path : Bytes) (mode at passed : ℕ) (t : Tables)
    (r : Reclaimer) where
  -- The reply, the tables and what the reclaimer shares, for the directory that the first part of a
  -- path leads to.
  abbrev pub made : Outcome (Option ℕ) → Outcome (Reply (Unit {0})) × (Tables × Reclaimer)
  made fault = (fault, (t, r))
  made running = (running, (t, r))
  made (done none) = (done (err enoent), (t, r))
  made (done (some parent)) =
      if accepts c (new_directory a.host path mode parent) t
      then (
        done (ok tt),
        (
          effect c at (new_directory a.host path mode parent)
              (skipped (new_directory a.host path mode parent) passed t),
          notify general a.now r,
        ),
      )
      else (done (err eio), (t, r))

module _ (c : Collation) (db : Sql) (d : Documented c db) (rel : Reliable c db d) (a : Around)
    (m : Myfs db) (path : Bytes) (mode b : ℕ) (dir : Bytes)
    (dir_is : util_dirname path dir_size ≡ b ∷ dir) where
  abbrev t : Tables
  t = tables_of c db d m.conn

  abbrev target : Outcome (Option ℕ)
  target = find_below c t ([] ∷ tokens dir) (some 0)

  module _ (tree : IsTree a.fuel t.files) (id_pos : 0 < t.next_file) where
    abbrev got : Outcome (Option File) × db.State
    got = file_get db a.host a.fuel (util_dirname path dir_size) false m.conn

    leads : Leads c db d rel a.host a.fuel t false target got
    leads =
        subst
          (λ p.
            Leads c db d rel a.host a.fuel t false target
              (file_get db a.host a.fuel p false m.conn))
          (sym dir_is) (file_get-Leads c db d rel a.host a.fuel b dir false m.conn tree)

    unchanged :
        (reply : Outcome (Reply (Unit {0})))
        → left_by c db d (reply, with_conn m got.1) ≡ (reply, (t, m.reclaimer))
    unchanged reply = ap (λ u. (reply, (u, m.reclaimer))) leads.same

    module _ (f : File) where
      abbrev row : Statement
      row = new_directory a.host path mode (file_id f)

      abbrev sent : Bool × db.State
      sent = db.query row got.1

      abbrev passed : ℕ
      passed = d.skip row got.1

      -- What is demanded of the number of the row demands it of every lesser one.
      unskipped : accepts c row (skipped row passed t) ≡ true → accepts c row t ≡ true
      unfolding accepts
      unskipped h = ground arith

      number_fits : accepts c row (skipped row passed t) ≡ true → t.next_file + passed < 2 ^ 32
      unfolding accepts
      number_fits h = ground arith

      -- The row is there exactly where the keys and the column types allow it.
      sent_is : sent.0 ≡ accepts c row t
      sent_is = elim (Bool-cases (accepts c row t)) [
        | inl allowed ↦ rw allowed (rel.accepted row got.1 (rw leads.same allowed))
        | inr refused ↦ elim (Bool-cases sent.0) [
          | inr not_sent ↦ rw refused not_sent
          | inl there ↦ cc (unskipped (rw leads.same at (d.allowed row got.1 there)))
        ]
      ]

      tables-sent :
          sent.0 ≡ true
          → tables_of c db d sent.1 ≡ effect c (d.now row got.1) row (skipped row passed t)
      unfolding effect
      tables-sent there =
          tables_after c db d row got.1 (λ now v. refl) there
          ∙ ap (λ (u : Tables). effect c (d.now row got.1) row (skipped row passed u)) leads.same

      tables-refused : sent.0 ≡ false → tables_of c db d sent.1 ≡ t
      tables-refused refused = ap (λ (v : View). v.tables) (d.failed row got.1 refused) ∙ leads.same

      id_there : sent.0 ≡ true → (u32 (db.insert_id sent.1) == 0) ≡ false
      id_there there =
          let e : db.insert_id sent.1 ≡ t.next_file + passed =
            d.inserted _ _ _ _ _ _ got.1 there
            ∙ ap (λ (u : Tables). u.next_file + passed) leads.same in
          let fits : t.next_file + passed < 2 ^ 32 =
            number_fits (rw leads.same at (d.allowed row got.1 there)) in
          rw e (ground arith)

      abbrev made_row : ℕ × db.State
      made_row = if sent.0 then (u32 (db.insert_id sent.1), sent.1) else (0, sent.1)

      abbrev with_parent : Outcome (Reply (Unit {0})) × Myfs db
      with_parent =
          if made_row.0 == 0
          then (done (err eio), with_conn m made_row.1)
          else (done (ok tt), notified general a.now (with_conn m made_row.1))

      with_parent-made :
          left_by c db d with_parent
          ≡ made c a path mode (d.now row got.1) passed t m.reclaimer (done (some (file_id f)))
      with_parent-made = elim (Bool-cases sent.0) [
        | inl there ↦
            rw (there, id_there there, (sym sent_is ∙ there))
              (ap (λ u. (done (ok tt), (u, notify general a.now m.reclaimer))) (tables-sent there))
        | inr refused ↦
            rw (refused, (sym sent_is ∙ refused))
              (ap (λ u. (done (err eio), (u, m.reclaimer))) (tables-refused refused))
      ]

    -- What follows the search.
    abbrev goes_on : Outcome (Option File) → Outcome (Reply (Unit {0})) × Myfs db
    goes_on fault = (fault, with_conn m got.1)
    goes_on running = (running, with_conn m got.1)
    goes_on (done none) = (done (err enoent), with_conn m got.1)
    goes_on (done (some f)) = with_parent f

    mkdir_is : mkdir db a path mode m ≡ goes_on got.0
    unfolding mkdir create_below with_file create
    mkdir_is = refl

    goes_on-made :
        (o : Outcome (Option File))
        → (at passed : ℕ) × (left_by c db d (goes_on o)
            ≡ made c a path mode at passed t m.reclaimer (found_id o))
    goes_on-made fault = (0, 0, unchanged fault)
    goes_on-made running = (0, 0, unchanged running)
    goes_on-made (done none) = (0, 0, unchanged (done (err enoent)))
    goes_on-made (done (some f)) = (d.now (row f) got.1, passed f, with_parent-made f)

    -- On a server on which nothing fails that the keys and the column types allow, with fuel for the
    -- chain of parents of every file, where the next File ID is not 0 and the directory of the path is
    -- not the empty string: `mkdir` replies ENOENT where the names of that
    -- directory lead to no file. Else it succeeds exactly where the keys and the column types allow
    -- the row of a directory below that file, whose name is what `util_basename` leaves of the last
    -- part of the path, at most its first 64 bytes; then the row is there, at some time of the server and
    -- after some numbers that AUTO_INCREMENT passes over, and the reclaimer is notified of an action. Where they
    -- do not it replies EIO, and the tables and the reclaimer are as they were. Where a name in front
    -- of others has no row it ends in a NULL access.
    pub mkdir_lem :
        (at passed : ℕ) × (left_by c db d (mkdir db a path mode m)
          ≡ made c a path mode at passed t m.reclaimer target)
    mkdir_lem =
        let (at, passed, e) = goes_on-made got.0 in
        (
          at,
          passed,
          ap (left_by c db d) mkdir_is
              ∙ e
              ∙ ap (made c a path mode at passed t m.reclaimer) leads.found,
        )
