-- ===== src/Sql.antt =====
-- The statements that src/myfs sends to MariaDB, and the server connection as an interface.
--
-- A statement is a constructor for each SQL text, with the values that the text is formatted with.
-- An escaped string (db_escape, db_escape_len of src/common/db.c) stands for the bytes that it
-- quotes, and a number column of a row for the number that strtoul reads from it.
pub mod Tables
pub mod Keys
pub mod Laws
pub mod Steps
pub mod Accept
use myfs.Base.{ℕ, ◌≡◌, refl, ◌⊎◌, inl, inr, Bool, Option, List, Bytes}

-- The statements that return no rows.
pub data Statement : Type 0 where
  start_transaction commit rollback : Statement
  -- parent, name, type, user, group, mode
  insert_file : ℕ → Bytes → Bytes → Bytes → Bytes → ℕ → Statement
  delete_file : ℕ → Statement
  -- block row, position from 1, length, bytes: INSERT(`data`, position, length, bytes)
  write_block : ℕ → ℕ → ℕ → Bytes → Statement
  -- CONCAT(`data`, bytes)
  concat_block : ℕ → Bytes → Statement
  -- CONCAT(`data`, REPEAT(' ', n))
  pad_block : ℕ → ℕ → Statement
  -- `data` = REPEAT(' ', n)
  blank_block : ℕ → ℕ → Statement
  delete_block : ℕ → Statement
  -- file, index, bytes
  insert_block : ℕ → ℕ → Bytes → Statement
  -- file, index, n: VALUES (…, REPEAT(' ', n))
  insert_blank : ℕ → ℕ → ℕ → Statement
  add_size : ℕ → ℕ → Statement
  set_size : ℕ → ℕ → Statement
  -- file, last_accessed_on, last_modified_on
  set_times : ℕ → ℕ → ℕ → Statement
  set_owner : ℕ → Option Bytes → Option Bytes → Statement
  set_mode : ℕ → ℕ → Statement
  set_parent : ℕ → ℕ → Statement
  -- file, parent, name
  set_place : ℕ → ℕ → Bytes → Statement

-- A row of `files`, without `created_on`, which no query reads.
pub record FileRow : Type 0 where
  pub file_id : ℕ
  pub name : Bytes
  pub parent_id : ℕ
  pub type : Bytes
  pub user : Bytes
  pub group : Bytes
  pub mode : ℕ
  pub size : ℕ
  pub last_accessed_on : ℕ
  pub last_modified_on : ℕ
  pub last_status_changed_on : ℕ

-- `file_data_id`, `index`, LENGTH(`data`)
pub record BlockHead : Type 0 where
  pub data_id : ℕ
  pub index : ℕ
  pub len : ℕ

-- `data`, LENGTH(`data`)
pub record DataRow : Type 0 where
  pub bytes : Bytes
  pub len : ℕ

-- The statements that return rows.
pub data Select : Type 0 where
  -- file, least index, limit
  blocks_from : ℕ → ℕ → ℕ → Select
  last_block : ℕ → Select
  last_block_size : ℕ → Select
  block_data : ℕ → ℕ → ℕ → Select
  file_size : ℕ → Select
  file_row : ℕ → Select
  children_of : ℕ → Select
  -- parent, name
  file_named : ℕ → Bytes → Select
  count_files : Select
  -- database
  space_used : Bytes → Select

abbrev pub Row : Select → Type 0
Row (blocks_from _ _ _) = BlockHead
Row (last_block _) = BlockHead
Row (last_block_size _) = ℕ × ℕ
Row (block_data _ _ _) = DataRow
Row (file_size _) = ℕ
Row (file_row _) = FileRow
Row (children_of _) = ℕ
Row (file_named _ _) = ℕ
Row count_files = ℕ
Row (space_used _) = ℕ

-- The functions of src/common/db.h that src/myfs/myfs_db.c calls, over the state of a connection.
pub record Sql : Type 1 where
  pub State : Type 0
  -- db_query, db_queryf: whether the statement succeeded
  pub query : Statement → State → Bool × State
  -- db_select, db_selectf: `none` for NULL
  pub select : (q : Select) → State → Option (List (Row q)) × State
  -- db_insert_id
  pub insert_id : State → ℕ

-- How a call ends: it returns, it has undefined behaviour (a NULL dereference or an access out of
-- bounds), or it has not returned within the fuel that it was given.
pub data Outcome (A : Type 0) : Type 0 where
  done : A → Outcome A
  fault : Outcome A
  running : Outcome A

infixl 5 ◌>>=◌
abbrev pub ◌>>=◌ : {A B : Type 0} → Outcome A → (A → Outcome B) → Outcome B
done a >>= f = f a
fault >>= f = fault
running >>= f = running

pub Outcome-cases :
    {A : Type 0} (o : Outcome A) → (o ≡ fault) ⊎ (o ≡ running) ⊎ ((a : A) × (o ≡ done a))
Outcome-cases (done a) = inr (inr (a, refl))
Outcome-cases fault = inl refl
Outcome-cases running = inr (inl refl)
