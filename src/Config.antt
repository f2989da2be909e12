-- ===== src/Config.antt =====
-- shared/src/config.rs and shared/src/config/toml_config.rs: what the client keeps on disk.
pub mod Servers
pub mod Files
pub mod Manager
pub mod Pairings
pub mod Removal
pub mod Rotation
pub mod History
