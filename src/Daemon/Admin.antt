-- ===== src/Daemon/Admin.antt =====
-- tapauthd/src/admin_handler.rs: administration over IPC.
pub mod Pairing
pub mod Slot
pub mod Complete
pub mod Settings
pub mod Dispatch
