-- ===== src/Manager.antt =====
-- manager/: the sync of one channel, and the manager of channels.
pub mod Start
pub mod State
pub mod Accounts
pub mod Unchanged
pub mod Setup
pub mod Worker
pub mod Workers
pub mod Storage
pub mod Daemon
pub mod Process
pub mod Termination
pub mod Integrity
pub mod Transfer
pub mod Run
mod Examples
