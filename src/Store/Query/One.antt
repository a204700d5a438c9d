-- ===== src/Store/Query/One.antt =====
-- What the query for one file, and for each of its children, returns on a server on which nothing
-- fails.
use mathlib.Core.Path.{subst}
use myfs.Base.{
  length, suc, ℕ, zero, suc, ◌≡◌, refl, sym, ◌∙◌, ap, inl, inr, Bool, false, Bool-cases, Option,
  none, some, List, [], ◌∷◌, ◌==◌, All, map,
}
use myfs.Sql.{Sql, Select, Row, FileRow, file_row, Outcome, done, fault, running}
use myfs.Sql.Tables.{Tables, Collation, Answer, find_file}
use myfs.Sql.Laws.{Documented, Reliable}
use myfs.Sql.Steps.{tables_of, tables_unchanged}
use myfs.Store.Kind.{file_type}
use myfs.Store.Query.{
  type_of, children_count, children_of_file, Host, File, Children, no_more, child, absent, file_id,
  file_of_row, parent_of, query_one, query_each,
}
use myfs.Store.Query.Tree.{find_file-id, type_in, child_count, shown, Climbs, first_id}

-- The ids of what a query returns.
abbrev pub id_found : Option File → Option ℕ
id_found none = none
id_found (some f) = some (file_id f)

abbrev pub found_id : Outcome (Option File) → Outcome (Option ℕ)
found_id (done f) = done (id_found f)
found_id fault = fault
found_id running = running

pub length-map : {A B : Type 0} (f : A → B) (xs : List A) → length (map f xs) ≡ length xs
length-map f [] = refl
length-map f (x ∷ xs) = ap suc (length-map f xs)

module _ (c : Collation) (db : Sql) (d : Documented c db) (rel : Reliable c db d) (host : Host)
    (t : Tables) where
  -- A SELECT that returns its rows from the tables `t`, and leaves them as they are.
  pub record Selected (q : Select) (s : db.State) : Type 0 where
    pub rows : List (Row q)
    pub there : (db.select q s).0 ≡ some rows
    pub answer : Answer c q t rows
    pub same : tables_of c db d (db.select q s).1 ≡ t

  pub selected : (q : Select) (s : db.State) → tables_of c db d s ≡ t → Selected q s
  selected q s e =
      let (rows, there) = rel.selected q s in
      record {
        rows = rows;
        there = there;
        answer = subst (λ u. Answer c q u rows) e (d.answered q s rows there);
        same = tables_unchanged c db d q s ∙ e;
      }

  -- A file has the type of its row, and the children that its row has, where they are asked for.
  abbrev pub Shows : Bool → Option File → Type 0
  Shows include_children none = Unit
  Shows include_children (some f) =
      (type_of f ≡ type_in (find_file (file_id f) t.files))
      × (children_count (children_of_file f)
          ≡ shown include_children (type_of f) (child_count (file_id f) t.files))

  abbrev pub ShowsIn : Bool → Outcome (Option File) → Type 0
  ShowsIn include_children (done f) = Shows include_children f
  ShowsIn include_children _ = Unit

  -- The query has returned the file with the id, or found none, and the tables are as they were.
  pub record Finds (include_children : Bool) (id : Option ℕ) (r : Outcome (Option File) × db.State)
      : Type 0 where
    pub found : found_id r.0 ≡ done id
    pub shows : ShowsIn include_children r.0
    pub same : tables_of c db d r.1 ≡ t

  pub under-Finds :
      (row : FileRow) (id : Option ℕ) (o : Outcome (Option File)) (s : db.State)
      → type_in (find_file row.file_id t.files) ≡ file_type row.type
      → Finds false id (o, s)
      → Finds false (some row.file_id) (
        elim o [
          | done p ↦ done (some (file_of_row host row (parent_of p)))
          | fault ↦ fault
          | running ↦ running
        ],
        s,
      )
  unfolding file_of_row
  under-Finds row id (done p) s e h = record { found = refl; shows = (sym e, refl); same = h.same }
  under-Finds row id fault s e h = cc (h.found)
  under-Finds row id running s e h = cc (h.found)

  pub query_one-Finds :
      (fuel id : ℕ) (s : db.State)
      → tables_of c db d s ≡ t
      → Climbs fuel t.files id
      → Finds false (first_id (find_file id t.files)) (query_one db host fuel id s)
  unfolding query_one
  query_one-Finds zero id s e h = cc
  query_one-Finds (suc fuel) id s e h =
      by_rows q.rows q.there q.answer (λ p k. query_one-Finds fuel p s1 q.same k)
    where
      q : Selected (file_row id) s
      q = selected (file_row id) s e

      s1 : db.State
      s1 = (db.select (file_row id) s).1

      by_rows :
          (rows : List FileRow)
          → (db.select (file_row id) s).0 ≡ some rows
          → rows ≡ find_file id t.files
          → ((p : ℕ)
              → Climbs fuel t.files p
              → Finds false (first_id (find_file p t.files)) (query_one db host fuel p s1))
          → Finds false (first_id (find_file id t.files)) (query_one db host (suc fuel) id s)
      by_rows [] there a up =
          rw (query_one, there, ← a) (record { found = refl; shows = tt; same = q.same })
      by_rows (row ∷ rest) there a up =
          let type_is : type_in (find_file row.file_id t.files) ≡ file_type row.type =
            ap (λ k. type_in (find_file k t.files)) (find_file-id id t.files row rest a)
            ∙ ap type_in (sym a) in
          elim (Bool-cases (id == 0)) [
            | inl root ↦
                rw (query_one, there, root, ← a)
                  (record { found = refl; shows = (sym type_is, refl); same = q.same })
            | inr below ↦
                rw (query_one, there, below, ← a)
                  (under-Finds row _ _ _ type_is (up row.parent_id (rw (below, ← a) at h)))
          ]

  -- A list of ids.
  pub record Listed (n : ℕ) (r : Outcome Children × db.State) : Type 0 where
    pub children : Children
    pub count : children_count children ≡ n
    pub returned : r.0 ≡ done children
    pub same : tables_of c db d r.1 ≡ t

  pub query_each-Listed :
      (fuel : ℕ) (ids : List ℕ) (s : db.State)
      → tables_of c db d s ≡ t
      → All (Climbs fuel t.files) ids
      → Listed (length ids) (query_each db host fuel ids s)
  unfolding query_each
  query_each-Listed fuel [] s e h = record {
    children = no_more;
    count = refl;
    returned = refl;
    same = e;
  }
  query_each-Listed fuel (id ∷ ids) s e h =
      let one = query_one-Finds fuel id s e h.0 in
      let rest = query_each-Listed fuel ids (query_one db host fuel id s).1 one.same h.1 in
      by_one (query_one db host fuel id s).0 refl one.found rest
    where
      s1 : db.State
      s1 = (query_one db host fuel id s).1

      by_one :
          (o : Outcome (Option File))
          → (query_one db host fuel id s).0 ≡ o
          → found_id o ≡ done (first_id (find_file id t.files))
          → Listed (length ids) (query_each db host fuel ids s1)
          → Listed (suc (length ids)) (query_each db host fuel (id ∷ ids) s)
      by_one (done none) e found rest =
          rw (query_each, e, rest.returned)
            (record {
              children = absent rest.children;
              count = ap suc rest.count;
              returned = refl;
              same = rest.same;
            })
      by_one (done (some f)) e found rest =
          rw (query_each, e, rest.returned)
            (record {
              children = child f rest.children;
              count = ap suc rest.count;
              returned = refl;
              same = rest.same;
            })
      by_one fault e found rest = cc
      by_one running e found rest = cc
