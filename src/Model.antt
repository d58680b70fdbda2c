-- ===== src/Model.antt =====
-- model/: the configuration, and the records and constants that the components share.
pub mod Entities
pub mod Config
