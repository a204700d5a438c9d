-- ===== src/Tests/Examples.antt =====
-- A small database, and the theorems on it: the root directory, a file with a block of three bytes,
-- and an empty file.
use myfs.Base.{
  ℕ, ◌+◌, ◌*◌, ◌^◌, ◌≤◌, ◌≡◌, refl, ◌⊎◌, inl, inr, true, Bool-cases, some, none, List, [], ◌∷◌, All,
  Bytes, ◌==◌, if◌then◌else◌, length, take, drop, arith,
}
use myfs.Sql.{FileRow, done}
use myfs.Sql.Tables.{Tables, Block}
use myfs.Sql.Keys.{has_file}
use myfs.Sql.Steps.{tables_of}
use myfs.Store.Content.{content, Distinct, IsOwned, Packed, WellFormed}
use myfs.Store.Kind.{regular, file_type_str}
use myfs.Store.Append.{append}
use myfs.Store.Append.Content.{Appended, append_lem}
use myfs.Store.Append.Success.{append_succeeds}
use myfs.Store.Read.{read}
use myfs.Store.Read.Content.{read_lem}
use myfs.Store.Roundtrip.{read-append}
use myfs.Tests.Engine.{
  engine-Commits, binary, Server, engine, engine-Documented, tables_of-engine, engine-Reliable,
}

abbrev row : ℕ → Bytes → ℕ → FileRow
row k name size = record {
  file_id = k;
  name = name;
  parent_id = 0;
  type = file_type_str regular;
  user = [];
  group = [];
  mode = 0o644;
  size = size;
  last_accessed_on = 0;
  last_modified_on = 0;
  last_status_changed_on = 0;
}

abbrev abc : Bytes
abc = b'a' ∷ b'b' ∷ b'c' ∷ []

abbrev pub de : Bytes
de = b'd' ∷ b'e' ∷ []

abbrev one_block : List Block
one_block = record { data_id = 1; index = 0; bytes = abc } ∷ []

abbrev pub small : Tables
small = record {
  files = row 0 [] 0 ∷ row 1 (b'f' ∷ []) 3 ∷ row 2 (b'g' ∷ []) 0 ∷ [];
  blocks = λ g. if g == 1 then one_block else [];
  next_file = 3;
  next_block = 2;
}

abbrev pub server : Server
server = record { view = record { tables = small; saved = small }; last_id = 0 }

small-IsOwned : (g : ℕ) → All (IsOwned (λ _. 1) 2 g) (small.blocks g)
small-IsOwned g = elim (Bool-cases (g == 1)) [
  | inl own ↦ rw own ((ground arith, omega arith, omega arith), tt)
  | inr other ↦ rw other tt
]

small-Distinct : (g : ℕ) → Distinct (small.blocks g)
small-Distinct g = elim (Bool-cases (g == 1)) [
  | inl own ↦ rw own (tt, tt)
  | inr other ↦ rw other tt
]

small-Packed : (g : ℕ) → Packed 0 (small.blocks g)
small-Packed g = elim (Bool-cases (g == 1)) [
  | inl own ↦ rw own (refl, omega arith, omega arith)
  | inr other ↦ rw other tt
]

small-WellFormed : WellFormed small
small-WellFormed = record {
  next_pos = omega arith;
  owner = λ _. 1;
  owned = small-IsOwned;
  distinct = small-Distinct;
  packed = small-Packed;
}

pub server-WellFormed : WellFormed (tables_of binary engine engine-Documented server)
server-WellFormed = rw (tables_of-engine server) small-WellFormed

pub server-room :
    length (content (tables_of binary engine engine-Documented server) 1) + length de + 8192
    ≤ 2 ^ 44
server-room = rw (tables_of-engine server) (omega arith)

pub server-has_file : has_file 1 (tables_of binary engine engine-Documented server) ≡ true
server-has_file = rw (tables_of-engine server) refl

append_lem_example :
    Appended binary engine engine-Documented 1 de server
      (append engine 1 de server).0
      (append engine 1 de server).1
append_lem_example =
    append_lem binary engine engine-Documented 1 de server server-WellFormed server-room
      engine-Commits

append_succeeds_example : (append engine 1 de server).0 ≡ true
append_succeeds_example =
    append_succeeds binary engine engine-Documented engine-Reliable 1 de server server-WellFormed
      server-room server-has_file

read_lem_example :
    (((read engine 1 2 2 (4096 * 0) server).0 ≡ done none)
      ⊎ ((read engine 1 2 2 (4096 * 0) server).0
          ≡ done (
              some (
                take 2 (
                  drop
                    (4096 * 0)
                    (content (tables_of binary engine engine-Documented server) 1))))))
    × (tables_of binary engine engine-Documented (read engine 1 2 2 (4096 * 0) server).1
        ≡ tables_of binary engine engine-Documented server)
read_lem_example =
    read_lem binary engine engine-Documented 1 2 2 0 server server-WellFormed (omega arith)
      (omega arith) (omega arith)

server-has_empty : has_file 2 (tables_of binary engine engine-Documented server) ≡ true
server-has_empty = rw (tables_of-engine server) refl

server-empty : length (content (tables_of binary engine engine-Documented server) 2) ≡ 4096 * 0
server-empty = rw (tables_of-engine server) refl

read-append_example :
    ((append engine 2 de server).0 ≡ true)
    × ((read engine 2 (length de) (length de) (4096 * 0) (append engine 2 de server).1).0
        ≡ done (some de))
read-append_example =
    read-append binary engine engine-Documented engine-Reliable 2 0 de server server-WellFormed
      server-has_empty server-empty (omega arith) (omega arith)
