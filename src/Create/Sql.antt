-- ===== src/Create/Sql.antt =====
-- The SQL texts of src/myfs/create.c: `create_get_sql_database` and the functions below it.
use myfs.Base.{ℕ, Bytes, ◌++◌, codes, take}

-- sizeof(sql) - 1: snprintf and strlcpy cut a text there.
abbrev sql_max : ℕ
sql_max = 2047

unfoldable pub sql_database : Bytes → Bytes
sql_database name = take sql_max (
    codes "CREATE DATABASE `"
    ++ (name ++ codes "` /*!40100 DEFAULT CHARACTER SET utf8mb4 COLLATE utf8mb4_general_ci */;"))

unfoldable pub sql_table1 : Bytes
sql_table1 =
    codes "CREATE TABLE `files` (\n    `file_id` int(10) unsigned NOT NULL AUTO_INCREMENT,\n"
    ++ (codes "    `parent_id` int(10) unsigned NOT NULL,\n    `name` varchar(64) NOT NULL,\n"
        ++ (codes "    `type` enum('File','Directory','Soft Link') NOT NULL,\n"
            ++ (codes "    `user` varchar(32) NOT NULL,\n    `group` varchar(32) NOT NULL,\n"
                ++ (codes
                      "    `mode` smallint(5) unsigned NOT NULL,\n    `size` bigint(20) unsigned NOT NULL,\n"
                    ++ (codes
                          "    `created_on` bigint(20) NOT NULL,\n    `last_accessed_on` bigint(20) NOT NULL,\n"
                        ++ (codes "    `last_modified_on` bigint(20) NOT NULL,\n"
                            ++ (codes
                                  "    `last_status_changed_on` bigint(20) NOT NULL,\n    PRIMARY KEY (`file_id`),\n"
                                ++ (codes "    UNIQUE KEY `uk_files` (`parent_id`,`name`),\n"
                                    ++ (codes
                                          "    CONSTRAINT `fk_files_parentid` FOREIGN KEY (`parent_id`) REFERENCES `files` (`file_id`) ON DELETE CASCADE ON UPDATE CASCADE\n"
                                        ++ codes
                                            ") ENGINE=InnoDB DEFAULT CHARSET=utf8mb4 COLLATE=utf8mb4_general_ci;")))))))))

unfoldable pub sql_table2 : Bytes
sql_table2 =
    codes
      "CREATE TABLE `file_data` (\n    `file_data_id` int(10) unsigned NOT NULL AUTO_INCREMENT,\n"
    ++ (codes "    `file_id` int(10) unsigned NOT NULL,\n    `index` int(10) unsigned NOT NULL,\n"
        ++ (codes "    `data` varbinary(4096) NOT NULL,\n    PRIMARY KEY (`file_data_id`),\n"
            ++ (codes "    UNIQUE KEY `uk_filedata` (`file_id`,`index`),\n"
                ++ (codes
                      "    CONSTRAINT `fk_filedata_fileid` FOREIGN KEY (`file_id`) REFERENCES `files` (`file_id`) ON DELETE CASCADE ON UPDATE CASCADE\n"
                    ++ codes
                        ") ENGINE=InnoDB DEFAULT CHARSET=utf8mb4 COLLATE=utf8mb4_general_ci;"))))

unfoldable pub sql_table3 : Bytes
sql_table3 =
    codes "CREATE TABLE `file_protection` (\n    `file_id` int(10) unsigned NOT NULL,\n"
    ++ (codes "    PRIMARY KEY (`file_id`),\n"
        ++ (codes
              "    CONSTRAINT `fk_fileprotection_fileid` FOREIGN KEY (`file_id`) REFERENCES `files` (`file_id`) ON UPDATE CASCADE\n"
            ++ codes ") ENGINE=InnoDB DEFAULT CHARSET=utf8mb4 COLLATE=utf8mb4_general_ci;"))

unfoldable pub sql_insert1 : Bytes
sql_insert1 = codes "SET SESSION sql_mode=CONCAT(@@SESSION.sql_mode,',','NO_AUTO_VALUE_ON_ZERO');"

unfoldable pub sql_insert2 : Bytes → Bytes → Bytes
sql_insert2 user group = take sql_max (
    codes
      "INSERT INTO `files` (`file_id`,`parent_id`,`name`,`type`,`user`,`group`,`mode`,`content`,`created_on`,`last_accessed_on`,`last_modified_on`,`last_status_changed_on`)\n"
    ++ (codes "VALUES (0,0,'','Directory','"
        ++ (user
            ++ (codes "','"
                ++ (group
                    ++ codes
                        "',16893,'',UNIX_TIMESTAMP(),UNIX_TIMESTAMP(),UNIX_TIMESTAMP(),UNIX_TIMESTAMP());")))))

unfoldable pub sql_insert3 : Bytes
sql_insert3 = codes "INSERT INTO `file_protection` (`file_id`)\nVALUES (0);"

unfoldable pub sql_user_create : Bytes → Bytes → Bytes → Bytes
sql_user_create user host password = take sql_max (
    codes "CREATE USER '"
    ++ (user ++ (codes "'@'" ++ (host ++ (codes "' IDENTIFIED BY '" ++ (password ++ codes "';"))))))

unfoldable pub sql_user_grant1 : Bytes → Bytes → Bytes → Bytes
sql_user_grant1 user host database = take sql_max (
    codes "GRANT USAGE ON `"
    ++ (database ++ (codes "`.* TO '" ++ (user ++ (codes "'@'" ++ (host ++ codes "';"))))))

unfoldable pub sql_user_grant2 : Bytes → Bytes → Bytes → Bytes
sql_user_grant2 user host database = take sql_max (
    codes "GRANT ALL PRIVILEGES ON `"
    ++ (database
        ++ (codes "`.* TO '" ++ (user ++ (codes "'@'" ++ (host ++ codes "' WITH GRANT OPTION;"))))))
