-- ===== src/Main/Levels.antt =====
-- The level of the reclaimer among the parameters of src/myfs/main.c.
pub mod Read
use myfs.Base.{
  ℕ, zero, suc, ◌<◌, ◌≡◌, refl, sym, ap, ◌∙◌, inl, inr, Bool, true, false, Bool-cases, ◌&&◌, ◌||◌,
  Option, none, some, Option-cases, List, [], ◌∷◌, Bytes, codes, same_text, same_text_refl,
  same_text_sound, drop, ltb, leb, if◌then◌else◌, All, arith,
}
use mathlib.Core.Path.{subst}
use mathlib.Core.Option.{some-injective}
use myfs.Config.Number.{ℤ, pos, negsuc, print_int, atoi}
use myfs.Config.Number.RoundTrip.{magnitude, pow10, atoi-print_int}
use myfs.Config.{
  Config, config_find, change_found, config_set, config_set_int, config_set_bool, config_get,
  config_get_int,
}
use myfs.Config.Lookup.{config_get-All}
use myfs.Config.File.Keeps.{config_read_file_keeps}
use myfs.Config.File.{is_named, find_key, take_pair, take_line, take_lines, config_read_file}
use myfs.Config.Args.{text_help, is_turn, find_switch, take_config, config_read_command_line}
use myfs.Main.Defaults.{configs}
use myfs.Reclaimer.{Level, off, optimistic, aggressive}
use myfs.Reclaimer.Thread.{level_of}
use myfs.Main.Run.{read_config, file_at}
use myfs.Main.{
  Handler, handle_create, handle_print_create_sql, handle_log_stdout, handle_log_syslog,
  handle_reclaimer_level, State, World, is_level, call,
}

abbrev pub level_name : Bytes
level_name = codes "reclaimer_level"

-- The text of a level.
abbrev pub IsLevelText : Option Bytes → Type 0
IsLevelText value = (z : ℤ) × (is_level z ≡ true) × (value ≡ some (print_int z))

-- A parameter of that name has its handler, and the text of a level.
abbrev pub IsLeveled : Config Handler → Type 0
IsLeveled c =
    same_text c.name level_name ≡ true
    → (c.func ≡ some handle_reclaimer_level) × IsLevelText c.value

same_name : (a k j : Bytes) → same_text a k ≡ true → same_text a j ≡ true → same_text k j ≡ true
same_name a k j h h' =
    let e : k ≡ j = sym (same_text_sound a k h) ∙ same_text_sound a j h' in rw e (same_text_refl j)

config_set-IsLeveled :
    (k value : Bytes) (cs : List (Config Handler))
    → (same_text k level_name ≡ true → IsLevelText (some value))
    → All IsLeveled cs
    → All IsLeveled (config_set k value cs).1
unfolding config_set change_found
config_set-IsLeveled k value [] fits h = tt
config_set-IsLeveled k value (c ∷ cs) fits h = elim (Bool-cases (same_text c.name k)) [
  | inl same ↦
      rw same ((λ named. ((h.0 named).0, fits (same_name c.name k level_name same named))), h.1)
  | inr other ↦ rw other (h.0, config_set-IsLeveled k value cs fits h.1)
]

call-IsLeveled :
    (f : Handler) (name value : Bytes) (s : State)
    → (same_text name level_name ≡ true → f ≡ handle_reclaimer_level)
    → All IsLeveled s.0
    → All IsLeveled (call f name value s).1.0
unfolding call config_set_bool config_set_int
call-IsLeveled handle_create name value s own h = h
call-IsLeveled handle_print_create_sql name value s own h = h
call-IsLeveled handle_log_stdout name value s own h =
    config_set-IsLeveled name _ s.0 (λ named. absurd (cc (own named))) h
call-IsLeveled handle_log_syslog name value s own h =
    config_set-IsLeveled name _ s.0 (λ named. absurd (cc (own named))) h
call-IsLeveled handle_reclaimer_level name value s own h =
    elim (Bool-cases (is_level (atoi value))) [
      | inl good ↦ rw good (
          config_set-IsLeveled name (print_int (atoi value)) s.0 (λ named. (atoi value, good, refl))
            h)
      | inr bad ↦ rw bad h
    ]

-- A parameter that is found is one of the list's.
find_key-IsLeveled :
    (key : Bytes) (cs : List (Config Handler)) (c : Config Handler)
    → find_key call key cs ≡ some c
    → All IsLeveled cs
    → IsLeveled c
unfolding find_key
find_key-IsLeveled key [] c e h = cc
find_key-IsLeveled key (d ∷ cs) c e h = elim (Bool-cases (is_named key d.name_config_file)) [
  | inl same ↦ let e' : d ≡ c = some-injective _ _ (rw same at e) in subst IsLeveled e' h.0
  | inr other ↦ find_key-IsLeveled key cs c (rw other at e) h.1
]

pub find_switch-IsLeveled :
    (arg : Bytes) (cs : List (Config Handler)) (c : Config Handler)
    → find_switch call arg cs ≡ some c
    → All IsLeveled cs
    → IsLeveled c
unfolding find_switch
find_switch-IsLeveled arg [] c e h = cc
find_switch-IsLeveled arg (d ∷ cs) c e h = elim (Bool-cases (is_named arg d.name_command_line)) [
  | inl same ↦ let e' : d ≡ c = some-injective _ _ (rw same at e) in subst IsLeveled e' h.0
  | inr other ↦ find_switch-IsLeveled arg cs c (rw other at e) h.1
]

-- The handler of a parameter, or `config_set` where there is none.
pub take_config-IsLeveled :
    (c : Config Handler) (value : Bytes) (s : State)
    → IsLeveled c
    → All IsLeveled s.0
    → All IsLeveled (take_config call c value s).1.0
unfolding take_config
take_config-IsLeveled c value s own h = elim (Option-cases c.func) [
  | inl plain ↦
      rw (take_config, plain)
        (config_set-IsLeveled c.name value s.0 (λ named. absurd (cc ((own named).0))) h)
  | inr (f, e) ↦
      rw (take_config, e)
        (call-IsLeveled f c.name value s (λ named. some-injective _ _ (sym e ∙ (own named).0)) h)
]

pub take_pair-IsLeveled :
    (key value : Bytes) (r : Bool × State)
    → All IsLeveled r.1.0
    → All IsLeveled (take_pair call key value r).1.0
unfolding take_pair
take_pair-IsLeveled key value (success, s) h = elim (Option-cases (find_key call key s.0)) [
  | inl missing ↦ rw (take_pair, missing) h
  | inr (c, e) ↦ elim (Option-cases c.func) [
    | inl plain ↦
        rw (take_pair, e, plain)
          (config_set-IsLeveled c.name value s.0
            (λ named. absurd (cc ((find_key-IsLeveled key s.0 c e h named).0))) h)
    | inr (f, has) ↦
        rw (take_pair, e, has)
          (call-IsLeveled f c.name value s
            (λ named. some-injective _ _ (sym has ∙ (find_key-IsLeveled key s.0 c e h named).0)) h)
  ]
]
