-- ===== src/Util.antt =====
-- The helpers of the folder util: the archives of files, the daemon's processes, and the clean start of
-- a test.
pub mod Archive
pub mod Daemon
pub mod Startup
mod Examples
