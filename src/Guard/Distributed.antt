-- ===== src/Guard/Distributed.antt =====
-- `redisGuard` of service/concurrency.go over the redis lock and the redis semaphore. Each call of
-- the server has a fate; the readings of the clock (in milliseconds) and the random identifiers
-- are arguments.
pub mod Leases
pub mod Tests
use Prim.Native.String.{◌++◌}
use git_sync_core.Prelude.{ℕ, zero, suc, ◌+◌, ◌%◌, Bool, true, false, String, ◌==◌, if◌then◌else◌}
use git_sync_core.Lock.Redis.{KeyStore, SortedSet, Fate, Reply, reply, failed}
use git_sync_core.Lock.RedisLock.{
  RedisLock, lock_with_ttl, unlock_with_value, extend_lock_with_value,
}
use git_sync_core.Lock.Semaphore
use git_sync_core.Lock.Semaphore.{Semaphore}

-- `taskLockTTL`, `semSlotTTL` and `renewInterval`
abbrev pub task_lock_ttl : ℕ
task_lock_ttl = 30000

abbrev pub sem_slot_ttl : ℕ
sem_slot_ttl = 30000

abbrev pub renew_interval : ℕ
renew_interval = 10000

-- `taskLockKeyPfx + taskKey`
unfoldable pub task_lock_key : String → String
task_lock_key key = "task:" ++ key

pub data Acquired : Type 0 where
  -- the value of the lock and the identifier of the slot, which the release function closes over
  granted : (value sem_id : String) → Acquired
  too_many_concurrent task_running : Acquired
  server_error : Acquired

module _ (K : KeyStore) (Z : SortedSet) where
  -- The two parts of the server and the map of one process.
  pub record World : Type 0 where
    pub keys : KeyStore.Db K
    pub slots : SortedSet.Db Z
    pub rlock : RedisLock

  -- The fates of the calls of one `Acquire`, its two readings of the clock for the slot, and the
  -- time at which the server sees the lock call.
  pub record Attempt : Type 0 where
    pub sem_fate : Fate
    pub lock_fate : Fate
    pub release_fate : Fate
    pub slot_now : ℕ
    pub slot_later : ℕ
    pub now : ℕ
    pub value : String
    pub sem_id : String

  unfoldable pub give_slot_back : Attempt → World → World
  give_slot_back a w = record w { slots = (Semaphore.release Z a.release_fate a.sem_id w.slots).1 }

  -- What follows the answer of `LockWithTTL`.
  unfoldable pub after_lock : Reply Bool → Attempt → World → Acquired × World
  unfolding give_slot_back
  after_lock failed a w = (server_error, give_slot_back a w)
  after_lock (reply false) a w = (task_running, give_slot_back a w)
  after_lock (reply true) a w = (granted a.value a.sem_id, w)

  unfoldable pub lock_task : String → Attempt → World → Acquired × World
  unfolding after_lock task_lock_key
  lock_task key a w =
      let (r, l, keys) =
        lock_with_ttl K a.lock_fate a.now (task_lock_key key) a.value task_lock_ttl w.rlock
          w.keys in
      after_lock r a (record w { keys = keys; rlock = l })

  unfoldable pub after_slot : Reply Bool → String → Attempt → World → Acquired × World
  unfolding lock_task
  after_slot failed key a w = (server_error, w)
  after_slot (reply false) key a w = (too_many_concurrent, w)
  after_slot (reply true) key a w = lock_task key a w

  -- `Acquire`
  unfoldable pub acquire : Semaphore → String → Attempt → World → Acquired × World
  unfolding after_slot
  acquire s key a w =
      let (r, slots) = Semaphore.acquire Z a.sem_fate s a.slot_now a.slot_later a.sem_id w.slots in
      after_slot r key a (record w { slots = slots })

  -- The release function: both calls are made, whatever becomes of the first.
  unfoldable pub release :
      (lock_fate slot_fate : Fate) (now : ℕ) (key value sem_id : String) → World → World
  unfolding task_lock_key
  release lock_fate slot_fate now key value sem_id w =
      let (_, l, keys) =
        unlock_with_value K lock_fate now (task_lock_key key) value w.rlock w.keys in
      let (_, slots) = Semaphore.release Z slot_fate sem_id w.slots in
      record { keys = keys; slots = slots; rlock = l }

  -- One tick of `watchdog`: the slot is renewed only where the call for the lock had no error. The
  -- number counts the failures in a row.
  unfoldable pub tick :
      (lock_fate slot_fate : Fate) (now : ℕ)
      → Semaphore
      → (key value sem_id : String) → ℕ × World
      → ℕ × World
  unfolding task_lock_key
  tick lock_fate slot_fate now s key value sem_id (failures, w) =
      let (r, keys) =
        extend_lock_with_value K lock_fate now (task_lock_key key) value task_lock_ttl w.keys in
      elim r [
        | failed ↦ (failures + 1, record w { keys = keys })
        | reply _ ↦ (
          0,
          record w { keys = keys; slots = (Semaphore.renew Z slot_fate s now sem_id w.slots).1 },
        )
      ]
