-- ===== src/Create/ConfigFile.antt =====
-- The file that `create_run_create_config` of src/myfs/create.c writes.
use myfs.Base.{List, [], ◌∷◌, Bytes, codes}
use myfs.Config.Number.{ℤ, print_int}
use myfs.Config.File.Items.{Item, comment, blank, unset, setting, file_text}
use myfs.Create.{Params}

-- The lines, in order; `count` and `wait` are config_get_int("failed_query_retry_count") and
-- config_get_int("failed_query_retry_wait").
unfoldable pub config_items : ℤ → ℤ → Params → List Item
config_items count wait params =
    comment
      (codes " Number of seconds to wait before retrying a failed query. -1 means do not retry.")
    ∷ setting (codes "failed_query_retry_count") (print_int count)
    ∷ blank
    ∷ comment (
        codes
          " The total number of failed queries to retry. If `retry_wait` is -1, this option is ignored. -1 means retry forever.")
    ∷ setting (codes "failed_query_retry_wait") (print_int wait)
    ∷ blank
    ∷ comment (codes " Whether or not to log to the console.")
    ∷ setting (codes "log_stdout") (codes "true")
    ∷ blank
    ∷ comment (codes " Whether or not to log to syslog.")
    ∷ setting (codes "log_syslog") (codes "false")
    ∷ blank
    ∷ comment (codes " The MariaDB database name.")
    ∷ setting (codes "mariadb_database") params.mariadb_database
    ∷ blank
    ∷ comment (codes " The MariaDB IP address or hostname.")
    ∷ setting (codes "mariadb_host") params.mariadb_host
    ∷ blank
    ∷ comment (codes " The MariaDB user's password.")
    ∷ unset (codes "mariadb_password")
    ∷ blank
    ∷ comment (codes " The MariaDB port.")
    ∷ setting (codes "mariadb_port") params.mariadb_port
    ∷ blank
    ∷ comment (codes " The MariaDB user.")
    ∷ setting (codes "mariadb_user") params.mariadb_user
    ∷ blank
    ∷ comment (codes " The mount point for the file system.")
    ∷ setting (codes "mount") params.mount
    ∷ blank
    ∷ comment (codes " Determines when reclaimer should run.")
    ∷ comment (codes "   0 is off.")
    ∷ comment (codes "   1 is optimistic and will run whenever it thinks nothing is going on.")
    ∷ comment (
        codes
          "   2 is aggressive and will run whenever a database operation occurs where space can be reclaimed.")
    ∷ setting (codes "reclaimer_level") (codes "1")
    ∷ []

unfoldable pub config_text : ℤ → ℤ → Params → Bytes
unfolding config_items file_text
config_text count wait params = file_text (config_items count wait params)
