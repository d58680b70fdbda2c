-- ===== src/Lock/Semaphore.antt =====
-- `Semaphore` of lock/lock.go over a redis sorted set, whose scores are deadlines in milliseconds.
-- Each script and each command is one step of the server.
pub mod Capacity
pub mod Tests
use git_sync_core.Prelude.{
  ℕ, ◌+◌, ◌-◌, ◌≡◌, Bool, true, false, String, Option, none, some, leb, ◌==◌, if◌then◌else◌,
}
use git_sync_core.Lock.Redis.{SortedSet, Fate, Reply, reply, failed, send}

-- The key of the set is the server's: one set is modelled for each semaphore.
pub record Semaphore : Type 0 where
  pub max : ℕ
  pub slot_ttl : ℕ

module _ (Z : SortedSet) where
  open Z use {Db, score, card, drop_up_to, add, rem}

  -- `semaphoreAcquireScript`
  unfoldable pub acquire_script : String → ℕ → ℕ → ℕ → Db → ℕ × Db
  acquire_script member max now expire db =
      let cleaned = drop_up_to now db in
      if leb max (card cleaned) then (0, cleaned) else (1, add expire member cleaned)

  -- `renewScript`: the reply of ZADD counts new members, and is not read.
  unfoldable pub renew_script : String → ℕ → Db → ℕ × Db
  renew_script member expire db = elim (score db member) [
    | none ↦ (0, db)
    | some _ ↦ (0, add expire member db)
  ]

  -- `Acquire`; `later` is the second reading of the clock.
  unfoldable pub acquire : Fate → Semaphore → ℕ → ℕ → String → Db → Reply Bool × Db
  unfolding send acquire_script
  acquire fate s now later identifier db =
      let (r, db') = send fate (acquire_script identifier s.max now (later + s.slot_ttl) db) db in
      elim r [ reply n ↦ (reply (n == 1), db') | failed ↦ (failed, db') ]

  unfoldable pub renew : Fate → Semaphore → ℕ → String → Db → Reply (Unit {0}) × Db
  unfolding send renew_script
  renew fate s now identifier db =
      let (r, db') = send fate (renew_script identifier (now + s.slot_ttl) db) db in
      elim r [ reply _ ↦ (reply tt, db') | failed ↦ (failed, db') ]

  unfoldable pub release : Fate → String → Db → Reply (Unit {0}) × Db
  unfolding send
  release fate identifier db = send fate (tt, rem identifier db) db

  -- `Cleanup`, for an age that is not past the epoch.
  unfoldable pub cleanup : Fate → ℕ → ℕ → Db → Reply (Unit {0}) × Db
  unfolding send
  cleanup fate now older_than db = send fate (tt, drop_up_to (now - older_than) db) db
