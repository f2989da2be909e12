-- ===== src/Daemon.antt =====
-- tapauthd/src/: the daemon that authenticates users and administers pairings.
pub mod Auth
pub mod State
pub mod Handle
pub mod Admin
pub mod Requests
