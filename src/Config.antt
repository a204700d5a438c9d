-- ===== src/Config.antt =====
-- src/common/config.c: the list of the parameters, with what sets and reads them. The calls of the
-- error function are output, and left out; the memory that is freed is not modelled.
pub mod Number
pub mod Line
pub mod File
pub mod Args
pub mod Lookup
use myfs.Base.{
  ℕ, ◌≡◌, Bool, true, false, Option, none, some, List, [], ◌∷◌, Bytes, same_text, if◌then◌else◌,
}
use myfs.Config.Number.{ℤ, print_int, atoi, strtoul32}

-- The type `H` stands for the values of `config_func_t`, and the type `W` for what they change beside
-- the parameters.
pub record Config (H : Type 0) : Type 0 where
  pub name : Bytes
  pub name_command_line : Option Bytes
  pub name_config_file : Option Bytes
  pub value : Option Bytes
  pub value_default : Option Bytes
  pub func : Option H
  pub help : Option Bytes
  pub priority : Bool

abbrev text_true : Bytes
text_true = b't' ∷ b'r' ∷ b'u' ∷ b'e' ∷ []

abbrev text_false : Bytes
text_false = b'f' ∷ b'a' ∷ b'l' ∷ b's' ∷ b'e' ∷ []

abbrev pub bool_text : Bool → Bytes
bool_text true = text_true
bool_text false = text_false

module _ {H : Type 0} where
  unfoldable pub config_find : Bytes → List (Config H) → Option (Config H)
  config_find name [] = none
  config_find name (config ∷ configs) =
      if same_text config.name name then some config else config_find name configs

  -- The change of the parameter that `config_find` finds.
  unfoldable pub change_found : Bytes → (Config H → Config H) → List (Config H) → List (Config H)
  change_found name change [] = []
  change_found name change (config ∷ configs) =
      if same_text config.name name
      then change config ∷ configs
      else config ∷ change_found name change configs

  unfoldable pub config_set_default :
      Bytes
      → Option Bytes
      → Option Bytes
      → Option Bytes
      → Option H
      → Option Bytes
      → List (Config H)
      → List (Config H)
  config_set_default name name_command_line name_config_file value_default func help configs =
      record {
        name = name;
        name_command_line = name_command_line;
        name_config_file = name_config_file;
        value = value_default;
        value_default = value_default;
        func = func;
        help = help;
        priority = false;
      }
      ∷ configs

  unfoldable pub config_set_default_int :
      Bytes
      → Option Bytes
      → Option Bytes
      → ℤ
      → Option H
      → Option Bytes
      → List (Config H)
      → List (Config H)
  unfolding config_set_default print_int
  config_set_default_int name name_command_line name_config_file value_default func help configs =
      config_set_default name name_command_line name_config_file (some (print_int value_default))
        func help configs

  unfoldable pub config_set_default_bool :
      Bytes
      → Option Bytes
      → Option Bytes
      → Bool
      → Option H
      → Option Bytes
      → List (Config H)
      → List (Config H)
  unfolding config_set_default
  config_set_default_bool name name_command_line name_config_file value_default func help configs =
      config_set_default name name_command_line name_config_file (some (bool_text value_default))
        func help configs

  unfoldable pub config_set_priority : Bytes → List (Config H) → List (Config H)
  unfolding change_found
  config_set_priority name = change_found name (λ config. record config { priority = true })

  -- Whether there is a parameter of that name.
  is_found : Option (Config H) → Bool
  is_found none = false
  is_found (some config) = true

  unfoldable pub config_set : Bytes → Bytes → List (Config H) → Bool × List (Config H)
  unfolding config_find change_found is_found
  config_set name value configs = (
    is_found (config_find name configs),
    change_found name (λ config. record config { value = some value }) configs,
  )

  unfoldable pub config_set_int : Bytes → ℤ → List (Config H) → Bool × List (Config H)
  unfolding config_set print_int
  config_set_int name value = config_set name (print_int value)

  unfoldable pub config_set_bool : Bytes → Bool → List (Config H) → Bool × List (Config H)
  unfolding config_set
  config_set_bool name value = config_set name (bool_text value)

  value_of : Option (Config H) → Option Bytes
  value_of none = none
  value_of (some config) = config.value

  -- config_get, and config_dupe, which copies the string
  unfoldable pub config_get : Bytes → List (Config H) → Option Bytes
  unfolding config_find value_of
  config_get name configs = value_of (config_find name configs)

  unfoldable pub config_has : Bytes → List (Config H) → Bool
  unfolding config_get
  config_has name configs = elim (config_get name configs) [ none ↦ false | some value ↦ true ]

  unfoldable pub config_equals : Bytes → Bytes → List (Config H) → Bool
  unfolding config_get
  config_equals name value configs = elim (config_get name configs) [
    | none ↦ false
    | some v ↦ same_text v value
  ]

  unfoldable pub config_get_int : Bytes → List (Config H) → ℤ
  unfolding config_get atoi
  config_get_int name configs = elim (config_get name configs) [
    | none ↦ ℤ.pos 0
    | some value ↦ atoi value
  ]

  unfoldable pub config_get_uint : Bytes → List (Config H) → ℕ
  unfolding config_get strtoul32
  config_get_uint name configs = elim (config_get name configs) [
    | none ↦ 0
    | some value ↦ strtoul32 value
  ]
