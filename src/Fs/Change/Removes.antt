-- ===== src/Fs/Change/Removes.antt =====
-- What myfs_rmdir of src/myfs/myfs.c removes, on a server on which nothing fails.

use myfs.Base.{
  ℕ, ◌≡◌, refl, ap, ◌∙◌, inl, inr, Bool, true, false, Bool-cases, Option, none, some, [], ◌∷◌,
  Bytes, ◌==◌, ltb, if◌then◌else◌,
}
use myfs.Sql.{Sql, delete_file, Outcome, done, fault, running}
use myfs.Sql.Tables.{Tables, Collation, effect, find_file}
use myfs.Sql.Keys.{accepts}
use myfs.Sql.Laws.{Documented, Reliable}
use myfs.Sql.Steps.{tables_of, tables_after}
use myfs.Store.Meta.{delete}
use myfs.Store.Query.{File, file_id, children_of_file, children_count}
use myfs.Store.Query.Tree.{IsTree, type_in, child_count, shown}
use myfs.Store.Query.One.{found_id, ShowsIn}
use myfs.Reclaimer.{Reclaimer, deletion, notify}
use myfs.Text.Path.{tokens}
use myfs.Fs.Context.{Reply, ok, err, enoent, eperm, enotempty, Around, Myfs, with_conn}
use myfs.Fs.Walk.{file_get}
use myfs.Fs.Walk.Finds.{find_below, Leads, file_get-Leads}
use myfs.Fs.Change.{rmdir, with_file, or_eio_deletion}

module _ (c : Collation) (now : ℕ) (t : Tables) (r : Reclaimer) where
  -- The reply, the tables and what the reclaimer shares, for the file that a path leads to.
  abbrev pub removed : Outcome (Option ℕ) → Outcome (Reply (Unit {0})) × (Tables × Reclaimer)
  removed fault = (fault, (t, r))
  removed running = (running, (t, r))
  removed (done none) = (done (err enoent), (t, r))
  removed (done (some id)) =
      if id == 0
      then (done (err eperm), (t, r))
      else if ltb 0 (shown true (type_in (find_file id t.files)) (child_count id t.files))
      then (done (err enotempty), (t, r))
      else (done (ok tt), (effect c now (delete_file id) t, notify deletion now r))

module _ (c : Collation) (db : Sql) (d : Documented c db) where
  -- What a callback has left: the reply, the tables and what the reclaimer shares.
  abbrev pub left_by :
      Outcome (Reply (Unit {0})) × Myfs db → Outcome (Reply (Unit {0})) × (Tables × Reclaimer)
  left_by r = (r.0, (tables_of c db d r.1.conn, r.1.reclaimer))

module _ (c : Collation) (db : Sql) (d : Documented c db) (rel : Reliable c db d) (a : Around)
    (m : Myfs db) where
  abbrev pub t : Tables
  t = tables_of c db d m.conn

  module _ (b : ℕ) (path : Bytes) (tree : IsTree a.fuel t.files) where
    abbrev got : Outcome (Option File) × db.State
    got = file_get db a.host a.fuel (b ∷ path) true m.conn

    leads : Leads c db d rel a.host a.fuel t true (find_below c t ([] ∷ tokens path) (some 0)) got
    leads = file_get-Leads c db d rel a.host a.fuel b path true m.conn tree

    -- The search has changed nothing.
    unchanged :
        (reply : Outcome (Reply (Unit {0})))
        → left_by c db d (reply, with_conn m got.1) ≡ (reply, (t, m.reclaimer))
    unchanged reply = ap (λ u. (reply, (u, m.reclaimer))) leads.same

    module _ (f : File) where
      abbrev sent : Bool × db.State
      sent = delete db (file_id f) got.1

      deleted : (file_id f == 0) ≡ false → sent.0 ≡ true
      unfolding delete accepts
      deleted below = rel.accepted (delete_file (file_id f)) got.1 (rw below refl)

      tables-deleted :
          sent.0 ≡ true → tables_of c db d sent.1 ≡ effect c a.now (delete_file (file_id f)) t
      unfolding delete effect
      tables-deleted done_so =
          tables_after c db d (delete_file (file_id f)) got.1 (λ now v. refl) done_so
          ∙ ap (effect c a.now (delete_file (file_id f))) leads.same

    -- What follows the search.
    abbrev with_found : File → Outcome (Reply (Unit {0})) × Myfs db
    with_found f =
        if file_id f == 0
        then (done (err eperm), with_conn m got.1)
        else if ltb 0 (children_count (children_of_file f))
        then (done (err enotempty), with_conn m got.1)
        else or_eio_deletion db a (sent f) (with_conn m got.1)

    abbrev goes_on : Outcome (Option File) → Outcome (Reply (Unit {0})) × Myfs db
    goes_on fault = (fault, with_conn m got.1)
    goes_on running = (running, with_conn m got.1)
    goes_on (done none) = (done (err enoent), with_conn m got.1)
    goes_on (done (some f)) = with_found f

    rmdir_is : rmdir db a (b ∷ path) m ≡ goes_on got.0
    unfolding rmdir with_file
    rmdir_is = refl

    with_found-removed :
        (f : File)
        → ShowsIn c db d rel a.host t true (done (some f))
        → left_by c db d (with_found f) ≡ removed c a.now t m.reclaimer (done (some (file_id f)))
    with_found-removed f h = elim (Bool-cases (file_id f == 0)) [
      | inl root ↦ rw root (unchanged (done (err eperm)))
      | inr below ↦ elim (Bool-cases (ltb 0 (children_count (children_of_file f)))) [
        | inl full ↦ rw (below, full, (rw count at full)) (unchanged (done (err enotempty)))
        | inr empty ↦
            rw (below, empty, (rw count at empty), deleted f below)
              (ap (λ u. (done (ok tt), (u, notify deletion a.now m.reclaimer)))
                (tables-deleted f (deleted f below)))
      ]
    ]
      where
        count :
            children_count (children_of_file f)
            ≡ shown true (type_in (find_file (file_id f) t.files)) (child_count (file_id f) t.files)
        count = h.1 ∙ ap (λ y. shown true y (child_count (file_id f) t.files)) h.0

    goes_on-removed :
        (o : Outcome (Option File))
        → ShowsIn c db d rel a.host t true o
        → left_by c db d (goes_on o) ≡ removed c a.now t m.reclaimer (found_id o)
    goes_on-removed fault h = unchanged fault
    goes_on-removed running h = unchanged running
    goes_on-removed (done none) h = unchanged (done (err enoent))
    goes_on-removed (done (some f)) h = with_found-removed f h

    -- On a server on which nothing fails, with fuel for the chain of parents of every file: `rmdir`
    -- replies ENOENT where the names of the path lead to no file, EPERM for the root and ENOTEMPTY for
    -- a directory with rows below it, and leaves the tables and the reclaimer as they were; for any
    -- other file it succeeds, its row is deleted, and the reclaimer is notified of a deletion. Where a
    -- name in front of others has no row it ends in a NULL access.
    pub rmdir_lem :
        left_by c db d (rmdir db a (b ∷ path) m)
        ≡ removed c a.now t m.reclaimer (find_below c t ([] ∷ tokens path) (some 0))
    rmdir_lem =
        ap (left_by c db d) rmdir_is
        ∙ goes_on-removed got.0 leads.shows
        ∙ ap (removed c a.now t m.reclaimer) leads.found
