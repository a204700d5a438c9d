-- ===== src/Store/Query/Finds.antt =====
-- What the queries for a file return on a server on which nothing fails.
use mathlib.Core.Path.{subst}
use myfs.Base.{
  length, ℕ, ◌≡◌, refl, sym, ◌∙◌, ap, Bool, true, false, ◌&&◌, Option, none, some, List, [], ◌∷◌,
  Bytes, ◌==◌, All, map,
}
use myfs.Sql.{Sql, FileRow, children_of, file_named, Outcome, done, fault, running}
use myfs.Sql.Tables.{Tables, Collation, filter, find_file}
use myfs.Sql.Laws.{Documented, Reliable}
use myfs.Sql.Steps.{tables_of}
use myfs.Store.Kind.{invalid, regular, directory, soft_link}
use myfs.Store.Query.{
  children_count, Host, File, file, file_id, query_one, query_children, query, query_name,
}
use myfs.Store.Query.Tree.{
  is_child, child_count, Climbs, IsTree, filter-Climbs, first_id, first_id-find_file,
}
use myfs.Store.Query.One.{Shows, Finds}
use myfs.Store.Query.One.{length-map, Selected, selected, query_one-Finds, query_each-Listed}

module _ (c : Collation) (db : Sql) (d : Documented c db) (rel : Reliable c db d) (host : Host)
    (t : Tables) where
  module _ (fuel : ℕ) (tree : IsTree fuel t.files) where
    query_children-Finds :
        (f : File) (s : db.State)
        → tables_of c db d s ≡ t
        → Shows c db d rel host t false (some f)
        → Finds c db d rel host t true (some (file_id f)) (query_children db host fuel f s)
    unfolding query_children
    query_children-Finds (file id name directory st up children) s e h =
        let q = selected c db d rel host t (children_of id) s e in
        let climb = filter-Climbs fuel t.files (is_child id) t.files tree in
        let l =
          query_each-Listed c db d rel host t fuel q.rows (db.select (children_of id) s).1 q.same
            (subst (All (Climbs fuel t.files)) (sym q.answer) climb) in
        let count : children_count l.children ≡ child_count id t.files =
          l.count
          ∙ ap length q.answer
          ∙ length-map (λ (r : FileRow). r.file_id) (filter (is_child id) t.files) in
        rw (query_children, q.there, l.returned)
          (record { found = refl; shows = (h.0, count); same = l.same })
    query_children-Finds (file id name regular st up children) s e h = record {
      found = refl;
      shows = h;
      same = e;
    }
    query_children-Finds (file id name soft_link st up children) s e h = record {
      found = refl;
      shows = h;
      same = e;
    }
    query_children-Finds (file id name invalid st up children) s e h = record {
      found = refl;
      shows = h;
      same = e;
    }

    query-Finds :
        (id : ℕ) (include_children : Bool) (s : db.State)
        → tables_of c db d s ≡ t
        → Climbs fuel t.files id
        → Finds c db d rel host t include_children
            (first_id (find_file id t.files))
            (query db host fuel id include_children s)
    unfolding query
    query-Finds id include_children s e h =
        by_one (query_one db host fuel id s).0 refl include_children
      where
        one :
            Finds c db d rel host t false
              (first_id (find_file id t.files))
              (query_one db host fuel id s)
        one = query_one-Finds c db d rel host t fuel id s e h

        by_one :
            (o : Outcome (Option File))
            → (query_one db host fuel id s).0 ≡ o
            → (include_children : Bool)
            → Finds c db d rel host t include_children
                (first_id (find_file id t.files))
                (query db host fuel id include_children s)
        by_one (done none) o_is k =
            rw (query, o_is) (record { found = rw o_is at one.found; shows = tt; same = one.same })
        by_one (done (some f)) o_is false =
            rw (query, o_is)
              (record {
                found = rw o_is at one.found;
                shows = rw o_is at one.shows;
                same = one.same;
              })
        by_one (done (some f)) o_is true =
            let r =
              query_children-Finds f (query_one db host fuel id s).1 one.same
                (rw o_is at one.shows) in
            rw (query, o_is)
              (record { found = r.found ∙ (rw o_is at one.found); shows = r.shows; same = r.same })
        by_one fault o_is k = cc (rw o_is at one.found)
        by_one running o_is k = cc (rw o_is at one.found)

    -- The rows below a directory by a name, of which the first is the one.
    abbrev pub named : Bytes → ℕ → FileRow → Bool
    named name p r = r.parent_id == p && c.same r.name name

    pub query_name-Finds :
        (name : Bytes) (p : ℕ) (include_children : Bool) (s : db.State)
        → tables_of c db d s ≡ t
        → Finds c db d rel host t include_children
            (first_id (filter (named name p) t.files))
            (query_name db host fuel name p include_children s)
    unfolding query_name
    query_name-Finds name p include_children s e =
        by_rows (filter (named name p) t.files) refl q.rows q.there q.answer
      where
        q : Selected c db d rel host t (file_named p name) s
        q = selected c db d rel host t (file_named p name) s e

        by_rows :
            (picked : List FileRow)
            → filter (named name p) t.files ≡ picked
            → (rows : List ℕ) → (db.select (file_named p name) s).0 ≡ some rows
            → rows ≡ map (λ r. r.file_id) (filter (named name p) t.files)
            → Finds c db d rel host t include_children
                (first_id (filter (named name p) t.files))
                (query_name db host fuel name p include_children s)
        by_rows [] picked_is rows there a =
            let none_there : (db.select (file_named p name) s).0 ≡ some [] =
              there ∙ ap some (a ∙ ap (map (λ r. r.file_id)) picked_is) in
            rw (query_name, none_there, picked_is)
              (record { found = refl; shows = tt; same = q.same })
        by_rows (row ∷ rest) picked_is rows there a =
            let some_there : (db.select (file_named p name) s).0
                ≡ some (row.file_id ∷ map (λ r. r.file_id) rest) =
              there ∙ ap some (a ∙ ap (map (λ r. r.file_id)) picked_is) in
            let climb : All (Climbs fuel t.files) (row.file_id ∷ map (λ r. r.file_id) rest) =
              subst (λ rs. All (Climbs fuel t.files) (map (λ r. r.file_id) rs)) picked_is
                (filter-Climbs fuel t.files (named name p) t.files tree) in
            rw (query_name, some_there, picked_is)
              (subst
                (λ o. Finds c db d rel host t include_children o (
                  query db host fuel row.file_id include_children
                    (db.select (file_named p name) s).1))
                (first_id-find_file (named name p) t.files row.file_id (ap first_id picked_is))
                (query-Finds row.file_id include_children (db.select (file_named p name) s).1 q.same
                  climb.0))
