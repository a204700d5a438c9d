-- ===== src/Log/Verbosity.antt =====
-- How the settings of the log in src/common/log.c change what is written.
use myfs.Log.{Log}
