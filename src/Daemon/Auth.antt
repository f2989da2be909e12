-- ===== src/Daemon/Auth.antt =====
-- tapauthd/src/auth_handler.rs: one authentication attempt.
pub mod Response
pub mod Loop
pub mod Evidence
pub mod Soundness
pub mod Progress
pub mod Noise
pub mod Race
pub mod Users
