-- ===== src/Config/File.antt =====
-- `config_read_file` of src/common/config.c.
pub mod Items
pub mod Keeps
pub mod Fitting
use myfs.Base.{
  ℕ, Bool, true, false, ◌||◌, Option, none, some, List, [], ◌∷◌, Bytes, ◌==◌, same_text,
  if◌then◌else◌, length,
}
use myfs.Text.Copy.{string_of}
use myfs.Config.{Config, config_set}
use myfs.Config.Line.{lines, config_trim, strtok_r}

abbrev pub is_named : Bytes → Option Bytes → Bool
is_named key none = false
is_named key (some name) = same_text key name

module _ {H : Type 0} {W : Type 0}
    (call : H → Bytes → Bytes → List (Config H) × W → Bool × (List (Config H) × W)) where
  -- The parameters, and what else the functions change.
  abbrev pub State : Type 0
  State = List (Config H) × W

  unfoldable pub find_key : Bytes → List (Config H) → Option (Config H)
  find_key key [] = none
  find_key key (config ∷ configs) =
      if is_named key config.name_config_file then some config else find_key key configs

  -- A line's key and value, where `success` is what has been found before.
  unfoldable pub take_pair : Bytes → Bytes → Bool × State → Bool × State
  unfolding find_key config_set
  take_pair key value (success, s) = elim (find_key key s.0) [
    | none ↦ (false, s)
    | some config ↦ elim config.func [
      | some func ↦ call func config.name value s
      | none ↦ (success, ((config_set config.name value s.0).1, s.1))
    ]
  ]

  is_ignored : Bytes → Bool
  is_ignored [] = true
  is_ignored (c ∷ line) = c == b'#'

  split_pair : Bytes → Bool × State → Bool × State
  unfolding strtok_r take_pair config_trim
  split_pair line r = elim (strtok_r b'=' line) [
    | none ↦ r
    | some (key, save) ↦ elim (strtok_r b'\n' save) [
      | none ↦ r
      | some (value, _) ↦ take_pair (config_trim key) (config_trim value) r
    ]
  ]

  unfoldable pub take_line : Bytes → Bool × State → Bool × State
  unfolding is_ignored split_pair config_trim
  take_line line r = if is_ignored (config_trim line) then r else split_pair (config_trim line) r

  unfoldable pub take_lines : List Bytes → Bool × State → Bool × State
  unfolding take_line string_of
  take_lines [] r = r
  take_lines (line ∷ ls) r = take_lines ls (take_line (string_of line) r)

  -- `file` is the content of the file, or `none` where it cannot be opened.
  unfoldable pub config_read_file : Option Bytes → State → Bool × State
  unfolding take_lines lines
  config_read_file none s = (false, s)
  config_read_file (some file) s = take_lines (lines (length file) file) (true, s)
