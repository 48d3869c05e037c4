-- ===== src/Rmanager.antt =====
-- rmanager/rman.go and rmanager/main.go: the resource manager, which runs resource agents at the
-- controller's request, repeats monitors, and answers over its Unix socket.
pub mod Table
pub mod View
pub mod Env
pub mod Exec
pub mod Handlers
pub mod Step
pub mod Cases
pub mod Quiet
pub mod Stop
pub mod Race
pub mod LateCall
pub mod Monitor
pub mod Round
pub mod Repeat
pub mod Taken
pub mod OneShot
pub mod Process
pub mod Turns
pub mod Service
pub mod Startup
pub mod Refine
pub mod Numbers
pub mod Sound
pub mod Reached
pub mod Waits
pub mod Progress
pub mod Way
pub mod Followed
pub mod Session
pub mod Locks
pub mod Guard
pub mod Apart
pub mod Welcome
pub mod Wired
pub mod Stopped
pub mod Final
mod Tests
mod WiredTests
mod LocksTests
