-- ===== src/Config/Args.antt =====
-- `config_read_command_line` and `config_read` of src/common/config.c.
use myfs.Base.{
  Bool, true, false, not, ◌&&◌, ◌||◌, Option, none, some, List, [], ◌∷◌, Bytes, same_text,
  if◌then◌else◌,
}
use myfs.Config.{Config, config_set}
use myfs.Config.File.{State, is_named, config_read_file}

abbrev pub text_help : Bytes
text_help = b'-' ∷ b'-' ∷ b'h' ∷ b'e' ∷ b'l' ∷ b'p' ∷ []

module _ {H : Type 0} {W : Type 0}
    (call : H → Bytes → Bytes → List (Config H) × W → Bool × (List (Config H) × W)) where
  unfoldable pub find_switch : Bytes → List (Config H) → Option (Config H)
  find_switch arg [] = none
  find_switch arg (config ∷ configs) =
      if is_named arg config.name_command_line then some config else find_switch arg configs

  -- The two priorities match.
  abbrev pub is_turn : Bool → Bool → Bool
  is_turn priority own = (priority && own) || (not priority && not own)

  -- A parameter and its value, of the priority that is looked for.
  unfoldable pub take_config : Config H → Bytes → State call → Bool × State call
  unfolding config_set
  take_config config value s = elim config.func [
    | some func ↦ call func config.name value s
    | none ↦ (true, ((config_set config.name value s.0).1, s.1))
  ]

  -- The arguments from the first one behind the program's name.
  unfoldable pub config_read_command_line : List Bytes → Bool → State call → Bool × State call
  unfolding find_switch take_config
  config_read_command_line [] priority s = (true, s)
  config_read_command_line (arg ∷ []) priority s = (false, s)
  config_read_command_line (arg ∷ value ∷ args) priority s =
      if same_text arg text_help then (false, s) else (elim (find_switch arg s.0) [
        | none ↦ (false, s)
        | some config ↦
            let (ok, s') =
              (if is_turn priority config.priority
                then take_config config value s
                else (true, s)) in
            elim ok [ true ↦ config_read_command_line args priority s' | false ↦ (false, s') ]
      ])

  unfoldable pub config_read : List Bytes → Option Bytes → State call → Bool × State call
  unfolding config_read_command_line config_read_file
  config_read args file s =
      let (first, s1) = config_read_command_line args true s in
      elim first [
        | false ↦ (false, s1)
        | true ↦
            let (second, s2) = config_read_file call file s1 in
            elim second [ false ↦ (false, s2) | true ↦ config_read_command_line args false s2 ]
      ]
