-- ===== src/Store/Query.antt =====
-- The queries for a file of src/myfs/myfs_db.c: by its File ID, with its parents and children, and
-- by its name.
pub mod Tree
pub mod One
pub mod Finds
use myfs.Base.{
  ℕ, zero, suc, Bool, true, false, Option, none, some, List, [], ◌∷◌, Bytes, ◌==◌, take,
}
use myfs.Sql.{Sql, FileRow, file_row, children_of, file_named, Outcome, done, fault, running}
use myfs.Store.Kind.{FileType, invalid, regular, directory, soft_link, file_type}

-- The fields of `struct stat` that the program sets.
pub record Stat : Type 0 where
  pub st_ino : ℕ
  pub st_mode : ℕ
  pub st_nlink : ℕ
  pub st_uid : ℕ
  pub st_gid : ℕ
  pub st_size : ℕ
  pub st_atime : ℕ
  pub st_mtime : ℕ
  pub st_ctime : ℕ

-- `myfs_file_t` of src/myfs/myfs.h. A child is absent where its query failed, and the parent too.
mutual
  pub data File : Type 0 where
    file : ℕ → Bytes → FileType → Stat → Parent → Children → File

  pub data Parent : Type 0 where
    no_parent : Parent
    under : File → Parent

  pub data Children : Type 0 where
    no_more : Children
    child : File → Children → Children
    absent : Children → Children

abbrev pub file_id : File → ℕ
file_id (file id name type st up children) = id

abbrev pub file_name : File → Bytes
file_name (file id name type st up children) = name

abbrev pub type_of : File → FileType
type_of (file id name type st up children) = type

abbrev pub stat_of : File → Stat
stat_of (file id name type st up children) = st

abbrev pub children_of_file : File → Children
children_of_file (file id name type st up children) = children

abbrev pub with_stat : Stat → File → File
with_stat st (file id name type _ up children) = file id name type st up children

abbrev pub with_children : Children → File → File
with_children children (file id name type st up _) = file id name type st up children

-- `children_count`
abbrev pub children_count : Children → ℕ
children_count no_more = 0
children_count (child f r) = suc (children_count r)
children_count (absent r) = suc (children_count r)

-- `parent->file_id`, or 0 if there is no parent
abbrev pub parent_id : File → ℕ
parent_id (file id name type st no_parent children) = 0
parent_id (file id name type st (under p) children) = file_id p

-- What the host and the configuration provide: the configured user and group, the database's name,
-- the ids of the FUSE context, and the host's user and group database (`getpwnam_r` and the like
-- behind src/myfs/util.c); an error is an errno.
pub data Lookup (A : Type 0) : Type 0 where
  found : A → Lookup A
  failed : ℕ → Lookup A

pub record Host : Type 0 where
  pub user : Bytes
  pub group : Bytes
  pub database : Bytes
  pub fuse_uid : ℕ
  pub fuse_gid : ℕ
  pub user_id : Bytes → Lookup ℕ
  pub group_id : Bytes → Lookup ℕ
  pub username : ℕ → Lookup Bytes
  pub groupname : ℕ → Lookup Bytes

-- The id of `name`, or of the configured name, or the one of the FUSE context.
unfoldable pub owner_id : (Bytes → Lookup ℕ) → Bytes → ℕ → Bytes → ℕ
owner_id lookup configured fuse_id name = elim (lookup name) [
  | found id ↦ id
  | failed _ ↦ elim (lookup configured) [ found id ↦ id | failed _ ↦ fuse_id ]
]

unfoldable pub links : FileType → ℕ
links regular = 1
links directory = 2
links soft_link = 1
links invalid = 0

unfoldable pub shown_size : FileType → ℕ → ℕ
shown_size regular size = size
shown_size soft_link size = size
shown_size _ size = 0

-- The size of `name` in `myfs_file_t`, less the terminator.
abbrev pub name_max : ℕ
name_max = 64

-- The file of a row of `files`.
unfoldable pub file_of_row : Host → FileRow → Parent → File
unfolding owner_id links shown_size
file_of_row host row up =
    file row.file_id (take name_max row.name) (file_type row.type)
      (record {
        st_ino = row.file_id;
        st_mode = row.mode;
        st_nlink = links (file_type row.type);
        st_uid = owner_id host.user_id host.user host.fuse_uid row.user;
        st_gid = owner_id host.group_id host.group host.fuse_gid row.group;
        st_size = shown_size (file_type row.type) row.size;
        st_atime = row.last_accessed_on;
        st_mtime = row.last_modified_on;
        st_ctime = row.last_status_changed_on;
      })
      up no_more

-- The parent, where its query has returned.
abbrev parent_of : Option File → Parent
parent_of none = no_parent
parent_of (some p) = under p

module _ (db : Sql) (host : Host) where
  -- myfs_db_file_query(myfs, file_id, false): the chain of the parents up to the root, on fuel.
  unfoldable pub query_one : ℕ → ℕ → db.State → Outcome (Option File) × db.State
  unfolding file_of_row
  query_one zero id s = (running, s)
  query_one (suc fuel) id s =
      let (res, s1) = db.select (file_row id) s in
      elim res [
        | none ↦ (done none, s1)
        | some [] ↦ (done none, s1)
        | some (row ∷ _) ↦ elim (id == 0) [
          | true ↦ (done (some (file_of_row host row no_parent)), s1)
          | false ↦
              let (r, s2) = query_one fuel row.parent_id s1 in
              (
                elim r [
                  | done p ↦ done (some (file_of_row host row (parent_of p)))
                  | fault ↦ fault
                  | running ↦ running
                ],
                s2,
              )
        ]
      ]

  -- The loop of myfs_db_file_query_children.
  unfoldable pub query_each : ℕ → List ℕ → db.State → Outcome Children × db.State
  unfolding query_one
  query_each fuel [] s = (done no_more, s)
  query_each fuel (id ∷ ids) s =
      let (r, s1) = query_one fuel id s in
      let (rest, s2) = query_each fuel ids s1 in
      elim r [
        | done none ↦
            (elim rest [ done cs ↦ done (absent cs) | fault ↦ fault | running ↦ running ], s2)
        | done (some f) ↦
            (elim rest [ done cs ↦ done (child f cs) | fault ↦ fault | running ↦ running ], s2)
        | fault ↦ (fault, s1)
        | running ↦ (running, s1)
      ]

  abbrev adopt : File → Outcome Children → Outcome (Option File)
  adopt f (done cs) = done (some (with_children cs f))
  adopt f fault = fault
  adopt f running = running

  -- A failed query of the children is a NULL that mysql_num_rows reads.
  unfoldable pub query_children : ℕ → File → db.State → Outcome (Option File) × db.State
  unfolding query_each
  query_children fuel (file id name directory st up children) s =
      let (res, s1) = db.select (children_of id) s in
      elim res [
        | none ↦ (fault, s1)
        | some ids ↦
            let (r, s2) = query_each fuel ids s1 in
            (adopt (file id name directory st up children) r, s2)
      ]
  query_children fuel f s = (done (some f), s)

  unfoldable pub query : ℕ → ℕ → Bool → db.State → Outcome (Option File) × db.State
  unfolding query_one query_children
  query fuel id include_children s =
      let (r, s1) = query_one fuel id s in
      elim r [
        | done (some f) ↦ elim include_children [
          | true ↦ query_children fuel f s1
          | false ↦ (done (some f), s1)
        ]
        | other ↦ (other, s1)
      ]

  unfoldable pub query_name : ℕ → Bytes → ℕ → Bool → db.State → Outcome (Option File) × db.State
  unfolding query
  query_name fuel name parent include_children s =
      let (res, s1) = db.select (file_named parent name) s in
      elim res [
        | none ↦ (done none, s1)
        | some [] ↦ (done none, s1)
        | some (id ∷ _) ↦ query fuel id include_children s1
      ]
