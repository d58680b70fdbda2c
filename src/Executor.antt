-- ===== src/Executor.antt =====
-- executor/: one run of a synchronisation task, and the classes of its errors.
pub mod Errors
pub mod Environment
pub mod Paths
pub mod Git
pub mod Steps
pub mod Run
