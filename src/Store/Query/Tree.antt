-- ===== src/Store/Query/Tree.antt =====
-- The rows of `files` as a tree: from each of them the parents lead to the root.
use myfs.Base.{
  not, ◌&&◌, length, ℕ, zero, suc, ◌≡◌, ◌∙◌, ap, inl, inr, Bool, true, false, ◌||◌, Bool-cases,
  Option, none, some, List, [], ◌∷◌, ◌==◌, All, map, arith,
}
use myfs.Sql.{FileRow}
use myfs.Store.Kind.{FileType, invalid, directory, file_type}
use myfs.Sql.Tables.{filter, find_file}

-- The parent, where there is a row.
abbrev pub parent_in : List FileRow → Option ℕ
parent_in [] = none
parent_in (r ∷ rs) = some r.parent_id

-- With `n` queries the chain of parents of a row comes to an end.
abbrev pub climbs : ℕ → List FileRow → ℕ → Bool
climbs zero fs id = false
climbs (suc n) fs id =
    let up = climbs n fs in
    id == 0 || elim (parent_in (find_file id fs)) [ none ↦ true | some p ↦ up p ]

abbrev pub Climbs : ℕ → List FileRow → ℕ → Type 0
Climbs n fs id = climbs n fs id ≡ true

abbrev pub IsTree : ℕ → List FileRow → Type 0
IsTree n fs = All (λ r. Climbs n fs r.file_id) fs

-- The ids of rows that are picked out climb too.
pub filter-Climbs :
    (n : ℕ) (fs : List FileRow) (p : FileRow → Bool) (rs : List FileRow)
    → All (λ r. Climbs n fs r.file_id) rs
    → All (Climbs n fs) (map (λ r. r.file_id) (filter p rs))
filter-Climbs n fs p [] h = tt
filter-Climbs n fs p (r ∷ rs) h = elim (Bool-cases (p r)) [
  | inl picked ↦ rw picked (h.0, filter-Climbs n fs p rs h.1)
  | inr other ↦ rw other (filter-Climbs n fs p rs h.1)
]

-- A row that is found by its id has it.
pub find_file-id :
    (id : ℕ) (fs : List FileRow) (r : FileRow) (rs : List FileRow)
    → r ∷ rs ≡ find_file id fs
    → r.file_id ≡ id
find_file-id id [] r rs e = cc
find_file-id id (f ∷ fs) r rs e = elim (Bool-cases (f.file_id == id)) [
  | inl this ↦
      let same : r.file_id ≡ f.file_id = ap (head_id 0) (rw this at e) in same ∙ ground arith
  | inr other ↦ find_file-id id fs r rs (rw other at e)
]
  where
    head_id : ℕ → List FileRow → ℕ
    head_id z [] = z
    head_id z (x ∷ xs) = x.file_id

abbrev pub first_id : List FileRow → Option ℕ
first_id [] = none
first_id (r ∷ rs) = some r.file_id

-- A row that has been picked out is found by its id.
pub first_id-find_file :
    (p : FileRow → Bool) (fs : List FileRow) (id : ℕ)
    → first_id (filter p fs) ≡ some id
    → first_id (find_file id fs) ≡ some id
first_id-find_file p [] id e = cc
first_id-find_file p (f ∷ fs) id e = elim (Bool-cases (f.file_id == id)) [
  | inl this ↦ rw this (ap some (ground arith))
  | inr other ↦ elim (Bool-cases (p f)) [
    | inl picked ↦ let same : f.file_id ≡ id = cc (rw picked at e) in absurd (ground arith)
    | inr skipped ↦ rw other (first_id-find_file p fs id (rw skipped at e))
  ]
]

-- The type of the row that is found.
abbrev pub type_in : List FileRow → FileType
type_in [] = invalid
type_in (r ∷ rs) = file_type r.type

abbrev pub is_child : ℕ → FileRow → Bool
is_child id r = r.parent_id == id && not (r.file_id == 0)

abbrev pub child_count : ℕ → List FileRow → ℕ
child_count id fs = length (filter (is_child id) fs)

-- The count in a file that has been read, of the children that there are.
abbrev pub shown : Bool → FileType → ℕ → ℕ
shown true directory count = count
shown include_children type count = 0
