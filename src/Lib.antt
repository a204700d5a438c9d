-- ===== src/Lib.antt =====
-- MyFS, a file system in a MariaDB database, mounted by FUSE.
--
-- A FUSE callback (src/myfs/myfs.c) finds the file of a path or of an open handle, and calls the
-- file store (src/myfs/myfs_db.c), which sends SQL statements over a connection (src/common/db.c).
-- A file is a row of `files`; its content is the `data` of its rows of `file_data`, blocks of at
-- most 4096 bytes that are numbered by `index`. After a deletion the callbacks notify the reclaimer
-- (src/myfs/reclaimer.c), a thread that runs OPTIMIZE TABLE. The program (src/myfs/main.c) reads its
-- parameters (src/common/config.c) from the command line and a file, connects, and runs FUSE; with
-- --create it asks for the parameters and sets up a database instead (src/myfs/create.c).
--
-- Base and the files below it: numbers, Boolean tests, byte strings, and lists measured by native
--   numbers.
-- Sql: a constructor for each SQL text that the store sends, and the connection as an interface
--   (db_query, db_queryf, db_select, db_selectf, db_insert_id of src/common/db.h). Sql/Tables says
--   what the statements mean by MariaDB's documentation, and Sql/Keys what the keys and column types
--   of src/myfs/create.c demand; Sql/Laws states this of a connection as hypotheses, which are about
--   each single statement. Any statement may fail at any point; a COMMIT that fails may have had its
--   effect or not, and the theorems on what is committed say that none fails. The AUTO_INCREMENT
--   counters of the tables are lower bounds, since an INSERT may pass over any numbers.
-- Text: src/common/string.c, and util_basename and util_dirname of src/myfs/util.c.
-- Store: src/myfs/myfs_db.c. Block is the block arithmetic, db_transaction_stop and the loop that
--   adds blocks; Append, Write, Read and Truncate are myfs_db_file_append, _write, _read and
--   _truncate; Meta the functions that change one row; Query the functions that read a file;
--   Content what the tables say of a file, as a well-formedness invariant, and how a block at its
--   end (Steps, Fill) or anywhere in it (Middle) changes. What the functions do to the content is
--   in the Content below Append, Write and Truncate, by Write/Overwrite and Truncate/Cut.
-- Reclaimer: src/myfs/reclaimer.c, with the time of each call as an argument; its start and stop are
--   in Thread. Process is its thread as a step relation, with the steps of the callbacks and of the
--   main thread in between; Process/Trace says of what has happened whether a query is warranted.
-- Fs: src/myfs/myfs.c, a callback for each of FUSE's: Walk (path to file), Handle (open files),
--   Status, Change, Data (read and write), Rename, Link. Walk/Finds, Change/Removes and Change/Makes
--   are about what a path leads to on a server on which nothing fails.
-- Users: the lookups of users and groups of src/myfs/util.c, and the host that the store sees by them.
-- Db: src/common/db.c over the C client library as a record. Tries and Returns are about the loop of
--   retries; Connection makes of it the interface Sql, and Connection/Tables is about its documentation,
--   on the condition that no call that fails ends the transaction.
-- Config: src/common/config.c. Number is atoi, strtoul and `%d`; Line the lines of a file, their
--   trimming and strtok_r; File and Args config_read_file and config_read_command_line; File/Items a
--   file as what is written into it, File/Fitting a test of that, File/Keeps what a file cannot
--   change, and Lookup what is read back of what is set.
-- Log: src/common/log.c, with Verbosity about its settings.
-- Main: src/myfs/main.c: the handlers of its parameters, the parameters (Defaults), `main`
--   (Run) and myfs_connect (Start). Levels is about what can become of the reclaimer's level,
--   and CommandLine about its last switch.
-- Create: src/myfs/create.c: the prompts as a state machine over the lines typed (Prompt), the texts
--   of the queries (Sql), the configuration file (ConfigFile), the steps with their cleanup
--   (Database), and create_run (Run). ReadBack reads the file by Config and Main.
-- Tests: a server that keeps the tables in memory and meets the hypotheses, and examples.
--
-- A call returns, faults (a NULL dereference or an access out of bounds), or is still running when
-- its fuel is used up. Fuel bounds the chain of parents of a file and the blocks that a truncation
-- removes, for which the number of bytes to be cut off is enough. The loops that add blocks take
-- the bytes that are left as their rounds, which is enough as a round stores at least one.
-- `unsigned int` values wrap at 2 ^ 32; the hypothesis on the room for an append keeps block
-- indexes below that.
--
-- `query_timed` is on fuel: a retry forever, or a clock that stands still, keeps it running. A prompt
-- that waits for a line is the end of what `prompts` has been given.
--
-- Not modelled: the help text, the error texts and the layout of a line of the log, which are
-- output; the terminal's echo; memory that is freed; the table of FUSE operations of
-- src/myfs/main.c; a configuration file that fprintf or fclose fails to write; a connection that is
-- lost inside a transaction and opened anew (MYSQL_OPT_RECONNECT); db_escape of src/common/db.c, as a statement holds the bytes that its text
-- quotes; that myfs_disconnect frees the open files. The users and groups of the host, its files and
-- directories that the prompts ask for, the time, MariaDB and its client library, and FUSE are
-- parameters.
pub mod Base
pub mod Sql
pub mod Db
pub mod Config
pub mod Log
pub mod Main
pub mod Create
pub mod Text
pub mod Store
pub mod Reclaimer
pub mod Fs
pub mod Users
pub mod Tests
