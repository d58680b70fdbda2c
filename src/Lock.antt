-- ===== src/Lock.antt =====
-- lock/lock.go: the in-process lock, the redis lock and the redis semaphore.
pub mod Backoff
pub mod Local
pub mod Redis
pub mod RedisLock
pub mod Semaphore
