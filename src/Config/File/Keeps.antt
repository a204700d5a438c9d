-- ===== src/Config/File/Keeps.antt =====
-- What every key and value keeps, a configuration file keeps.
use myfs.Base.{
  inl, inr, Bool, true, Bool-cases, Option, none, some, Option-cases, List, [], ◌∷◌, Bytes, length,
}
use myfs.Text.Copy.{string_of}
use myfs.Config.{Config}
use myfs.Config.Line.{lines, config_trim, strtok_r}
use myfs.Config.File.{
  State, is_ignored, split_pair, take_pair, take_line, take_lines, config_read_file,
}

module _ {H : Type 0} {W : Type 0}
    (call : H → Bytes → Bytes → List (Config H) × W → Bool × (List (Config H) × W))
    (Q : State call → Type 0)
    (keeps : (key value : Bytes) (r : Bool × State call)
      → Q r.1
      → Q (take_pair call key value r).1) where
  split_pair_keeps : (line : Bytes) (r : Bool × State call) → Q r.1 → Q (split_pair call line r).1
  unfolding split_pair
  split_pair_keeps line r h = elim (Option-cases (strtok_r b'=' line)) [
    | inl no_key ↦ rw (split_pair, no_key) h
    | inr ((key, save), e) ↦ elim (Option-cases (strtok_r b'\n' save)) [
      | inl no_value ↦ rw (split_pair, e, no_value) h
      | inr ((value, rest), e') ↦
          rw (split_pair, e, e') (keeps (config_trim key) (config_trim value) r h)
    ]
  ]

  take_line_keeps : (line : Bytes) (r : Bool × State call) → Q r.1 → Q (take_line call line r).1
  unfolding take_line
  take_line_keeps line r h = elim (Bool-cases (is_ignored call (config_trim line))) [
    | inl ignored ↦ rw ignored h
    | inr read ↦ rw read (split_pair_keeps (config_trim line) r h)
  ]

  take_lines_keeps : (ls : List Bytes) (r : Bool × State call) → Q r.1 → Q (take_lines call ls r).1
  unfolding take_lines
  take_lines_keeps [] r h = h
  take_lines_keeps (line ∷ ls) r h =
      take_lines_keeps ls (take_line call (string_of line) r) (take_line_keeps (string_of line) r h)

  pub config_read_file_keeps :
      (file : Option Bytes) (s : State call) → Q s → Q (config_read_file call file s).1
  unfolding config_read_file
  config_read_file_keeps none s h = h
  config_read_file_keeps (some file) s h = take_lines_keeps (lines (length file) file) (true, s) h
