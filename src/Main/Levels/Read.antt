-- ===== src/Main/Levels/Read.antt =====
-- The level that the program starts the reclaimer of src/myfs/reclaimer.c with, whatever it has read.
use myfs.Base.{
  zero, suc, ◌<◌, ◌≡◌, refl, inl, inr, Bool, true, false, Bool-cases, Option, some, Option-cases,
  List, [], ◌∷◌, Bytes, codes, same_text, drop, if◌then◌else◌, All, arith,
}
use myfs.Config.Number.{ℤ, pos, negsuc}
use myfs.Config.Number.RoundTrip.{magnitude, pow10, atoi-print_int}
use myfs.Config.{Config, config_get, config_get_int}
use myfs.Config.Lookup.{config_get-All}
use myfs.Config.File.Keeps.{config_read_file_keeps}
use myfs.Config.File.{config_read_file}
use myfs.Config.Args.{text_help, is_turn, find_switch, take_config, config_read_command_line}
use myfs.Main.Defaults.{configs}
use myfs.Reclaimer.{Level, off, optimistic, aggressive}
use myfs.Reclaimer.Thread.{level_of}
use myfs.Main.Run.{read_config, file_at}
use myfs.Main.{Handler, State, World, is_level, call}
use myfs.Main.Levels.{
  level_name, IsLeveled, find_switch-IsLeveled, take_config-IsLeveled, take_pair-IsLeveled,
}

config_read_file-IsLeveled :
    (file : Option Bytes) (s : State)
    → All IsLeveled s.0
    → All IsLeveled (config_read_file call file s).1.0
config_read_file-IsLeveled =
    config_read_file_keeps call (λ s. All IsLeveled s.0)
      (λ key value r h. take_pair-IsLeveled key value r h)

turn_keeps :
    (turn : Bool) (r : Bool × State) (s : State)
    → All IsLeveled r.1.0
    → All IsLeveled s.0
    → All IsLeveled (if turn then r else (true, s)).1.0
turn_keeps true r s taken h = taken
turn_keeps false r s taken h = h

config_read_command_line-IsLeveled :
    (args : List Bytes) (priority : Bool) (s : State)
    → All IsLeveled s.0
    → All IsLeveled (config_read_command_line call args priority s).1.0
unfolding config_read_command_line
config_read_command_line-IsLeveled [] priority s h = h
config_read_command_line-IsLeveled (arg ∷ []) priority s h = h
config_read_command_line-IsLeveled (arg ∷ value ∷ args) priority s h =
    elim (Bool-cases (same_text arg text_help)) [
      | inl help ↦ rw help h
      | inr other ↦ elim (Option-cases (find_switch call arg s.0)) [
        | inl missing ↦ rw (other, missing) h
        | inr (c, e) ↦
            let r : Bool × State =
              if is_turn call priority c.priority then take_config call c value s else (true, s) in
            let kept =
              turn_keeps (is_turn call priority c.priority) (take_config call c value s) s
                (take_config-IsLeveled c value s (find_switch-IsLeveled arg s.0 c e h) h) h in
            elim (Bool-cases r.0) [
              | inl ok ↦
                  rw (other, e, ok) (config_read_command_line-IsLeveled args priority r.1 kept)
              | inr failed ↦ rw (other, e, failed) kept
            ]
      ]
    ]

unfoldable others : List (Config Handler) → Bool
others [] = true
others (c ∷ cs) = if same_text c.name level_name then false else others cs

others-IsLeveled : (cs : List (Config Handler)) → others cs ≡ true → All IsLeveled cs
unfolding others
others-IsLeveled [] h = tt
others-IsLeveled (c ∷ cs) h = elim (Bool-cases (same_text c.name level_name)) [
  | inl same ↦ cc (rw (others, same) at h)
  | inr other ↦ ((λ named. cc), others-IsLeveled cs (rw (others, other) at h))
]

configs-IsLeveled : (user group : Bytes) → All IsLeveled (configs user group)
unfolding configs others
configs-IsLeveled user group = (
  (λ named. cc),
  ((λ named. (refl, (pos 1, refl, refl))), others-IsLeveled (drop 2 (configs user group)) refl),
)

is_level-magnitude : (z : ℤ) → is_level z ≡ true → magnitude z < pow10 10
is_level-magnitude (pos n) h = ground arith
is_level-magnitude (negsuc n) h = cc

get_int-is_level :
    (cs : List (Config Handler)) → All IsLeveled cs → is_level (config_get_int level_name cs) ≡ true
unfolding config_get_int
get_int-is_level cs h = elim (config_get-All IsLeveled level_name cs h) [
  | inl missing ↦ rw (config_get_int, missing) refl
  | inr (c, own, named, e) ↦
      let (z, good, text) = (own named).1 in
      rw (config_get_int, e, text, atoi-print_int z (is_level-magnitude z good)) good
]

read_config-IsLeveled :
    (args : List Bytes) (file : Bytes → Option Bytes) (s : State)
    → All IsLeveled s.0
    → All IsLeveled (read_config args file s).1.0
unfolding read_config
read_config-IsLeveled args file s h =
    let s1 = (config_read_command_line call args true s).1 in
    let h1 = config_read_command_line-IsLeveled args true s h in
    elim (Bool-cases (config_read_command_line call args true s).0) [
      | inr failed ↦ rw (read_config, failed) h1
      | inl ok ↦
          let path = file_at file (config_get (codes "config_file") s1.0) in
          let h2 = config_read_file-IsLeveled path s1 h1 in
          elim (Bool-cases (config_read_file call path s1).0) [
            | inr failed ↦ rw (read_config, ok, failed) h2
            | inl ok' ↦
                rw (read_config, ok, ok')
                  (config_read_command_line-IsLeveled args false (config_read_file call path s1).1
                    h2)
          ]
    ]

level_found : (z : ℤ) → is_level z ≡ true → (level : Level) × (level_of z ≡ some level)
unfolding level_of
level_found (pos zero) h = (off, refl)
level_found (pos (suc zero)) h = (optimistic, refl)
level_found (pos (suc (suc zero))) h = (aggressive, refl)
level_found (pos (suc (suc (suc n)))) h = absurd (ground arith)
level_found (negsuc n) h = absurd (cc)

-- Whatever the command line and the configuration file hold, and whether they are read to the end or
-- not, the number that the reclaimer is started with stands for one of its three levels.
pub read_config-level_of :
    (args : List Bytes) (file : Bytes → Option Bytes) (user group : Bytes) (w : World)
    → (level : Level) × (level_of (
          config_get_int
            (codes "reclaimer_level")
            (read_config args file (configs user group, w)).1.0)
        ≡ some level)
read_config-level_of args file user group w =
    let s : State = (configs user group, w) in
    level_found (config_get_int level_name (read_config args file s).1.0) (
      get_int-is_level (read_config args file s).1.0
        (read_config-IsLeveled args file s (configs-IsLeveled user group)))
