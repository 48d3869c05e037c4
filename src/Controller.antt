-- ===== src/Controller.antt =====
-- controller/: the cluster controller, which starts its child processes, talks to the resource
-- manager and to Corosync, and has its resource started and monitored.
pub mod Control
pub mod Requests
pub mod Overflow
pub mod Blocked
pub mod Identity
pub mod Plan
pub mod Childs
pub mod Clients
pub mod Process
pub mod Refine
pub mod Pass
pub mod Wired
pub mod Broadcast
pub mod ChildControll
pub mod Startup
mod Tests
