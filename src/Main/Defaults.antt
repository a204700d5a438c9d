-- ===== src/Main/Defaults.antt =====
-- The parameters that `main` of src/myfs/main.c declares.
use myfs.Base.{true, false, Option, none, some, List, [], Bytes, codes}
use myfs.Config.{
  Config, config_set_default, config_set_default_int, config_set_default_bool, config_set_priority,
}
use myfs.Config.Number.{pos, negsuc}
use myfs.Main.{
  Handler, handle_create, handle_print_create_sql, handle_log_stdout, handle_log_syslog,
  handle_reclaimer_level,
}

abbrev Configs : Type 0
Configs = List (Config Handler)

-- The help texts are not read but to be printed, and are left out: `none`.
text : Bytes → Option Bytes → Bytes → Option Bytes → Configs → Configs
unfolding config_set_default
text name file switch value = config_set_default name (some switch) file value none none

-- The user and the group of the process are the defaults of theirs.
unfoldable pub defaults : Bytes → Bytes → Configs
unfolding text config_set_default config_set_default_int config_set_default_bool
defaults user group = text (codes "user") (some (codes "user")) (codes "--user") (some user) (
    config_set_default_int (codes "reclaimer_level") (some (codes "--reclaimer-level"))
      (some (codes "reclaimer_level")) (pos 1) (some handle_reclaimer_level) none
      (config_set_default_bool (codes "print_create_sql") (some (codes "--print-create-sql")) none
        false (some handle_print_create_sql) none
        (text (codes "mount") (some (codes "mount")) (codes "--mount") (some (codes "/mnt/myfs")) (
          text (codes "mariadb_user") (some (codes "mariadb_user")) (codes "--mariadb-user")
            (some (codes "myfs"))
            (text (codes "mariadb_port") (some (codes "mariadb_port")) (codes "--mariadb-port")
              (some (codes "3306"))
              (text (codes "mariadb_password") (some (codes "mariadb_password"))
                (codes "--mariadb-password") none
                (text (codes "mariadb_host") (some (codes "mariadb_host")) (codes "--mariadb-host")
                  (some (codes "127.0.0.1"))
                  (text (codes "mariadb_database") (some (codes "mariadb_database"))
                    (codes "--mariadb-database") (some (codes "myfs"))
                    (config_set_default_bool (codes "log_syslog") (some (codes "--log-syslog"))
                      (some (codes "log_syslog")) false (some handle_log_syslog) none
                      (config_set_default_bool (codes "log_stdout") (some (codes "--log-stdout"))
                        (some (codes "log_stdout")) true (some handle_log_stdout) none
                        (text (codes "group") (some (codes "group")) (codes "--group") (some group)
                          (config_set_default_int (codes "failed_query_retry_count")
                            (some (codes "--failed-query-retry-count"))
                            (some (codes "failed_query_retry_count")) (negsuc 0) none none
                            (config_set_default_int (codes "failed_query_retry_wait")
                              (some (codes "--failed-query-retry-wait"))
                              (some (codes "failed_query_retry_wait")) (negsuc 0) none none
                              (config_set_default_bool (codes "create") (some (codes "--create"))
                                none false (some handle_create) none
                                (text (codes "config_file") none (codes "--config-file")
                                  (some (codes "/etc/myfs.d/myfs.conf")) [])))))))))))))))

-- The parameters that are read from the command line before the file.
unfoldable pub configs : Bytes → Bytes → Configs
unfolding defaults config_set_priority
configs user group = config_set_priority (codes "print_create_sql") (
    config_set_priority (codes "create")
      (config_set_priority (codes "config_file") (defaults user group)))
