-- ===== src/Tests.antt =====
-- The server in memory, the examples, and the tests.
mod Engine
mod Examples
mod Callbacks
mod Paths
mod Store
mod Connection
mod Settings
mod Setup
mod Threads
mod Directories
