-- ===== src/Main.antt =====
-- src/myfs/main.c: the parameters, their functions, and the order of start and stop.
pub mod Defaults
pub mod Run
pub mod Start
pub mod Levels
pub mod CommandLine
use myfs.Base.{
  ℕ, suc, ◌-◌, ◌≡◌, refl, Bool, true, false, ◌&&◌, ◌||◌, Option, none, some, List, [], ◌∷◌, Bytes,
  codes, same_text, ltb, leb, ◌==◌, if◌then◌else◌,
}
use myfs.Log.{Log, log_stdout, log_syslog}
use myfs.Config.{Config, config_set_bool, config_set_int, config_get_int, config_has, config_get}
use myfs.Config.Number.{ℤ, pos, negsuc, atoi}

-- The `config_func_t` of main.c.
pub data Handler : Type 0 where
  handle_create handle_print_create_sql handle_log_stdout handle_log_syslog : Handler
  handle_reclaimer_level : Handler

-- What they change beside the parameters: the log, how often `create_run` has been called, and how
-- often the SQL has been printed.
pub record World : Type 0 where
  pub log : Log
  pub created : ℕ
  pub printed : ℕ

abbrev pub State : Type 0
State = List (Config Handler) × World

-- VERSION_NAME
abbrev version_name : Bytes
version_name = codes "MyFS"

abbrev is_true : Bytes → Bool
is_true value = same_text value (codes "true")

abbrev pub is_level : ℤ → Bool
is_level (pos n) = leb n 2
is_level (negsuc n) = false

unfoldable pub call : Handler → Bytes → Bytes → State → Bool × State
unfolding log_stdout log_syslog config_set_bool config_set_int atoi
call handle_create name value (configs, w) =
    (false, (configs, record w { created = suc w.created }))
call handle_print_create_sql name value (configs, w) =
    (false, (configs, record w { printed = suc w.printed }))
call handle_log_stdout name value (configs, w) = (
  true,
  (
    (config_set_bool name (is_true value) configs).1,
    record w { log = log_stdout (is_true value) w.log },
  ),
)
call handle_log_syslog name value (configs, w) = (
  true,
  (
    (config_set_bool name (is_true value) configs).1,
    record w { log = log_syslog (if is_true value then some version_name else none) w.log },
  ),
)
call handle_reclaimer_level name value (configs, w) =
    if is_level (atoi value)
    then (let (ok, configs') = config_set_int name (atoi value) configs in (ok, (configs', w)))
    else (false, (configs, w))

abbrev is_setting : ℤ → Bool
is_setting (pos n) = true
is_setting (negsuc n) = n == 0

-- Both are -1 or more.
unfoldable pub check_config : List (Config Handler) → Bool
unfolding config_get_int
check_config configs =
    is_setting (config_get_int (codes "failed_query_retry_wait") configs)
    && is_setting (config_get_int (codes "failed_query_retry_count") configs)

-- The arguments for FUSE: the program's name, and where the mount point is set `-f` and that.
unfoldable pub fargs_create : Bytes → List (Config Handler) → List Bytes
unfolding config_get
fargs_create name configs = elim (config_get (codes "mount") configs) [
  | none ↦ name ∷ []
  | some mount ↦ name ∷ codes "-f" ∷ mount ∷ []
]

-- The answer to the prompt.
unfoldable pub confirm_config : Bytes → Bool
confirm_config input = same_text input (codes "y")
