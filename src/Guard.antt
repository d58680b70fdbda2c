-- ===== src/Guard.antt =====
-- service/concurrency.go: one execution for each task, and a limit on all executions.
pub mod Local
pub mod Distributed
