-- ===== src/Corosync.antt =====
-- corosync/corosync.go: the connection to the cluster group. The main loop of `runs` and its retry
-- macros are the C code in the file's preamble; the calls of the Corosync library are answers that
-- the definitions take.
pub mod Retry
pub mod Session
pub mod Join
pub mod Callback
pub mod Send
pub mod Node
pub mod Rejoin
mod Tests
