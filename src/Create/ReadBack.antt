-- ===== src/Create/ReadBack.antt =====
-- The program reads the configuration file that the set-up writes.
use myfs.Base.{◌<◌, ◌≡◌, refl, true, some, List, Bytes, codes}
use myfs.Config.Number.{ℤ}
use myfs.Config.Number.RoundTrip.{magnitude, pow10, atoi-print_int}
use myfs.Config.File.{config_read_file, take_pair, find_key}
use myfs.Config.File.Items.{apply_items, config_read_file-file_text}
use myfs.Config.File.Fitting.{is_key, is_answer, fits_all, fits_all-Fits, is_answer-print_int}
use myfs.Config.{Config, config_set, config_get, config_get_int}
use myfs.Main.{Handler, World, call}
use myfs.Main.Defaults.{configs}
use myfs.Create.{Params}
use myfs.Create.ConfigFile.{config_items, config_text}

-- What the answers to the prompts must be: text of one line, with no space around it, short enough
-- for a line of the file.
pub record IsAnswered (p : Params) : Type 0 where
  pub database : is_answer p.mariadb_database ≡ true
  pub host : is_answer p.mariadb_host ≡ true
  pub port : is_answer p.mariadb_port ≡ true
  pub user : is_answer p.mariadb_user ≡ true
  pub mount : is_answer p.mount ≡ true

items_fit :
    (count wait : ℤ) (p : Params) → IsAnswered p → fits_all (config_items count wait p) ≡ true
unfolding config_items fits_all is_key
items_fit count wait p h =
    rw
      (
        is_answer-print_int count,
        is_answer-print_int wait,
        h.database,
        h.host,
        h.port,
        h.user,
        h.mount,
      )
      refl

-- Whether the parameters give back what the file has been written for.
abbrev pub IsReadBack : ℤ → ℤ → Params → List (Config Handler) → Type 0
IsReadBack count wait p read =
    (config_get (codes "mariadb_database") read ≡ some p.mariadb_database)
    × (config_get (codes "mariadb_host") read ≡ some p.mariadb_host)
    × (config_get (codes "mariadb_port") read ≡ some p.mariadb_port)
    × (config_get (codes "mariadb_user") read ≡ some p.mariadb_user)
    × (config_get (codes "mount") read ≡ some p.mount)
    × (config_get_int (codes "failed_query_retry_count") read ≡ count)
    × (config_get_int (codes "failed_query_retry_wait") read ≡ wait)

settings-IsReadBack :
    (count wait : ℤ) (p : Params) (user group : Bytes) (w : World)
    → magnitude count < pow10 10
    → magnitude wait < pow10 10
    → IsReadBack count wait p
        (apply_items call (config_items count wait p) (true, (configs user group, w))).1.0
unfolding configs call config_items take_pair find_key config_set config_get config_get_int
settings-IsReadBack count wait p user group w c h =
    (refl, refl, refl, refl, refl, atoi-print_int count c, atoi-print_int wait h)

settings-succeed :
    (count wait : ℤ) (p : Params) (user group : Bytes) (w : World)
    → (apply_items call (config_items count wait p) (true, (configs user group, w))).0 ≡ true
unfolding configs call config_items take_pair find_key config_set
settings-succeed count wait p user group w = refl

-- The program that reads the file the set-up has written, with its defaults set and nothing else
-- read, succeeds, and its parameters are the answers that were given and the two numbers written.
-- The answers are one line each, without spaces around them, and short enough for a line.
pub config_read_file-config_text :
    (count wait : ℤ) (p : Params) (user group : Bytes) (w : World)
    → magnitude count < pow10 10
    → magnitude wait < pow10 10
    → IsAnswered p
    → let r = config_read_file call (some (config_text count wait p)) (configs user group, w) in
      (r.0 ≡ true) × IsReadBack count wait p r.1.0
unfolding config_text
config_read_file-config_text count wait p user group w c h fits =
    let read =
      config_read_file-file_text call (config_items count wait p) (configs user group, w)
        (fits_all-Fits (config_items count wait p) (items_fit count wait p fits)) in
    rw read (
      settings-succeed count wait p user group w,
      settings-IsReadBack count wait p user group w c h,
    )
