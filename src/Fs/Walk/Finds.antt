-- ===== src/Fs/Walk/Finds.antt =====
-- What `myfs_file_get` of src/myfs/myfs.c finds on a server on which nothing fails.
use mathlib.Core.Path.{subst}
use myfs.Base.{ℕ, ◌≡◌, refl, Bool, Option, none, some, List, [], ◌∷◌, Bytes, ◌==◌, ◌&&◌}
use myfs.Sql.{Sql, Outcome, done, fault, running}
use myfs.Sql.Tables.{Tables, Collation, filter}
use myfs.Sql.Laws.{Documented, Reliable}
use myfs.Sql.Steps.{tables_of}
use myfs.Store.Query.{Host, File, file_id, query_name}
use myfs.Store.Query.Tree.{IsTree, first_id}
use myfs.Store.Query.One.{id_found, found_id, Shows, ShowsIn, Finds}
use myfs.Store.Query.Finds.{query_name-Finds}
use myfs.Text.Path.{tokens}
use myfs.Fs.Walk.{walk, file_get}

module _ (c : Collation) (t : Tables) where
  -- The names one after another, each below the file before it; a name below a file that is not there
  -- is a NULL access.
  abbrev pub find_below : List Bytes → Option ℕ → Outcome (Option ℕ)
  find_below [] id = done id
  find_below (name ∷ names) none = fault
  find_below (name ∷ names) (some p) =
      find_below names (first_id (filter (λ r. r.parent_id == p && c.same r.name name) t.files))

module _ (c : Collation) (db : Sql) (d : Documented c db) (rel : Reliable c db d) (host : Host)
    (fuel : ℕ) where
  -- The file with the id that the names lead to.
  pub record Leads (t : Tables) (include_children : Bool) (o : Outcome (Option ℕ))
      (r : Outcome (Option File) × db.State) : Type 0 where
    pub found : found_id r.0 ≡ o
    pub shows : ShowsIn c db d rel host t include_children r.0
    pub same : tables_of c db d r.1 ≡ t

  module _ (t : Tables) (tree : IsTree fuel t.files) (include_children : Bool) where
    -- The query for one name, and what follows it.
    module _ (name : Bytes) (p : ℕ) (names : List Bytes) (s : db.State)
        (e : tables_of c db d s ≡ t) where
      abbrev asked : Outcome (Option File) × db.State
      asked = query_name db host fuel name p include_children s

      abbrev id : Option ℕ
      id = first_id (filter (λ r. r.parent_id == p && c.same r.name name) t.files)

      abbrev goes_on : Outcome (Option File) → Outcome (Option File) × db.State
      goes_on (done g) = walk db host fuel names g include_children asked.1
      goes_on fault = (fault, asked.1)
      goes_on running = (running, asked.1)

      goes_on-Leads :
          ((g : Option File)
            → Shows c db d rel host t include_children g
            → tables_of c db d asked.1 ≡ t
            → Leads t include_children
                (find_below c t names (id_found g))
                (walk db host fuel names g include_children asked.1))
          → Leads t include_children (find_below c t names id) (goes_on asked.0)
      goes_on-Leads rest =
          by_one asked.0 (query_name-Finds c db d rel host t fuel tree name p include_children s e)
        where
          by_one :
              (o : Outcome (Option File))
              → Finds c db d rel host t include_children id (o, asked.1)
              → Leads t include_children (find_below c t names id) (goes_on o)
          by_one (done g) one =
              let same_id : id_found g ≡ id = cc one.found in
              subst (λ i. Leads t include_children (find_below c t names i) (goes_on (done g)))
                same_id (rest g one.shows one.same)
          by_one fault one = cc one.found
          by_one running one = cc one.found

    walk-Leads :
        (names : List Bytes) (f : Option File) (s : db.State)
        → Shows c db d rel host t include_children f
        → tables_of c db d s ≡ t
        → Leads t include_children
            (find_below c t names (id_found f))
            (walk db host fuel names f include_children s)
    unfolding walk
    walk-Leads [] f s h e = record { found = refl; shows = h; same = e }
    walk-Leads (name ∷ names) none s h e = record { found = refl; shows = tt; same = e }
    walk-Leads (name ∷ names) (some f) s h e =
        goes_on-Leads name (file_id f) names s e (λ g shows same. walk-Leads names g _ shows same)

  pub file_get-Leads :
      (b : ℕ) (path : Bytes) (include_children : Bool) (s : db.State)
      → IsTree fuel (tables_of c db d s).files
      → Leads
          (tables_of c db d s)
          include_children
          (find_below c (tables_of c db d s) ([] ∷ tokens path) (some 0))
          (file_get db host fuel (b ∷ path) include_children s)
  unfolding file_get
  file_get-Leads b path include_children s tree =
      goes_on-Leads (tables_of c db d s) tree include_children [] 0 (tokens path) s refl
        (λ g shows same.
          walk-Leads (tables_of c db d s) tree include_children (tokens path) g _ shows same)

  -- On a server on which nothing fails, with fuel for the chain of parents of every file: `file_get`
  -- returns the file to which the names of the path lead, each of them the name of the first row
  -- below the file before it, from the root with its empty name on; it returns none where the last
  -- name has no row, and it ends in a NULL access where one in front of others has none. The tables
  -- are as they were.
  pub file_get_lem :
      (b : ℕ) (path : Bytes) (include_children : Bool) (s : db.State)
      → IsTree fuel (tables_of c db d s).files
      → let (r, s') = file_get db host fuel (b ∷ path) include_children s in
        (found_id r ≡ find_below c (tables_of c db d s) ([] ∷ tokens path) (some 0))
        × (tables_of c db d s' ≡ tables_of c db d s)
  file_get_lem b path include_children s tree =
      let leads = file_get-Leads b path include_children s tree in (leads.found, leads.same)
