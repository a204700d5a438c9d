-- ===== src/Log.antt =====
-- src/common/log.c: which messages are written, and where to. The time and the layout of a line are
-- output.
pub mod Verbosity
use myfs.Base.{ℕ, Bool, true, false, not, ◌&&◌, Option, none, some, ltb, if◌then◌else◌, Bytes, take}

-- `log_severity_t` of src/common/log.h, in its order
pub data Severity : Type 0 where
  err warn info debug : Severity

abbrev pub rank : Severity → ℕ
rank err = 0
rank warn = 1
rank info = 2
rank debug = 3

pub record Log : Type 0 where
  pub severity : Severity
  pub to_stdout : Bool
  pub to_syslog : Bool

unfoldable pub log_init : Log
log_init = record { severity = debug; to_stdout = true; to_syslog = false }

unfoldable pub log_set_severity : Severity → Log → Log
log_set_severity severity log = record log { severity = severity }

unfoldable pub log_stdout : Bool → Log → Log
log_stdout enable log = record log { to_stdout = enable }

-- A name, or `none` for NULL.
unfoldable pub log_syslog : Option Bytes → Log → Log
log_syslog none log = record log { to_syslog = false }
log_syslog (some name) log = record log { to_syslog = true }

unfoldable pub log_severity_char : Severity → ℕ
log_severity_char err = b'E'
log_severity_char warn = b'W'
log_severity_char info = b'I'
log_severity_char debug = b'D'

-- The LOG_ERR and so on of <syslog.h>.
unfoldable pub log_syslog_severity : Severity → ℕ
log_syslog_severity err = 3
log_syslog_severity warn = 4
log_syslog_severity info = 6
log_syslog_severity debug = 7

-- What goes to stdout, as the severity's letter and the message, and what to syslog.
pub record Written : Type 0 where
  pub stdout : Option (ℕ × Bytes)
  pub syslog : Option (ℕ × Bytes)

-- sizeof(message) - 1
abbrev pub message_max : ℕ
message_max = 511

unfoldable pub log_write : Severity → Bytes → Log → Written
unfolding log_severity_char log_syslog_severity
log_write severity text log =
    let message = take message_max text in
    if not log.to_stdout && not log.to_syslog
    then record { stdout = none; syslog = none }
    else if ltb (rank log.severity) (rank severity)
    then record { stdout = none; syslog = none }
    else record {
      stdout = if log.to_stdout then some (log_severity_char severity, message) else none;
      syslog = if log.to_syslog then some (log_syslog_severity severity, message) else none;
    }
