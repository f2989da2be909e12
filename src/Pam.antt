-- ===== src/Pam.antt =====
-- client-pam/src/pam_logic.rs: what the PAM module decides in the process of its host.
pub mod Outcome
pub mod Reuse
pub mod Waiting
pub mod Terminal
pub mod Attempt
pub mod Transaction
pub mod Host
