-- ===== src/Config.antt =====
-- config/runtime_toml.rs: the reader and the editor of the runtime's configuration file.
pub mod Value
pub mod Setting
pub mod Reader
pub mod Shape
pub mod Site
pub mod Backups
pub mod Patch
pub mod Write
pub mod View
