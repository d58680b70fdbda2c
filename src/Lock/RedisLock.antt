-- ===== src/Lock/RedisLock.antt =====
-- `RedisLock` of lock/lock.go over a redis server. A Lua script runs as one step of the server.
-- The value that `generateLockValue` draws is an argument. An error carries no text.
pub mod Ownership
pub mod Tests
use Prim.Native.String.{◌++◌}
use git_sync_core.Prelude.{
  ℕ, ◌≡◌, Bool, true, false, String, Option, none, some, ◌||◌, if◌then◌else◌, ◌=ˢ◌, ◌==◌, Table,
  lookup, insert, remove, List, [], ◌∷◌,
}
use git_sync_core.Lock.Redis.{KeyStore, Fate, Reply, reply, failed, send}

-- `"git-sync:lock:" + key`
unfoldable pub lock_key : String → String
lock_key key = "git-sync:lock:" ++ key

-- `lockValues` of one process.
pub record RedisLock : Type 0 where
  pub lock_values : Table String

-- `if ok { l.lockValues[key] = value }`
unfoldable pub remember : Reply Bool → String → String → RedisLock → RedisLock
remember (reply true) key value l = record { lock_values = insert key value l.lock_values }
remember (reply false) key value l = l
remember failed key value l = l

-- `if v, ok := l.lockValues[key]; ok && v == value { delete(l.lockValues, key) }`
unfoldable pub forget : String → String → RedisLock → RedisLock
forget key value l = elim (lookup key l.lock_values) [
  | none ↦ l
  | some v ↦ if v =ˢ value then record { lock_values = remove key l.lock_values } else l
]

module _ (R : KeyStore) where
  open R use {Db, get, set_nx, del, pexpire}

  -- `unlockScript`
  unfoldable pub unlock_script : ℕ → String → String → Db → ℕ × Db
  unlock_script now key value db = elim (get now key db) [
    | none ↦ (0, db)
    | some v ↦ if v =ˢ value then (1, del key db) else (0, db)
  ]

  -- `extendScript`
  unfoldable pub extend_script : ℕ → String → String → ℕ → Db → ℕ × Db
  extend_script now key value ttl db = elim (get now key db) [
    | none ↦ (0, db)
    | some v ↦ if v =ˢ value then (1, pexpire now key ttl db) else (0, db)
  ]

  -- `LockWithTTL`: the answer of SETNX, the process and the server afterwards. `TryLockWithTTL`
  -- is the same call, which keeps the value to itself.
  unfoldable pub lock_with_ttl :
      Fate → ℕ → String → String → ℕ → RedisLock → Db → Reply Bool × RedisLock × Db
  unfolding lock_key remember send
  lock_with_ttl fate now key value ttl l db =
      let (r, db') = send fate (set_nx now (lock_key key) value ttl db) db in
      (r, remember r key value l, db')

  -- `UnlockWithValue`: an error returns before the map is touched.
  unfoldable pub unlock_with_value :
      Fate → ℕ → String → String → RedisLock → Db → Reply (Unit {0}) × RedisLock × Db
  unfolding lock_key forget send unlock_script
  unlock_with_value fate now key value l db =
      let (r, db') = send fate (unlock_script now (lock_key key) value db) db in
      elim r [ reply _ ↦ (reply tt, forget key value l, db') | failed ↦ (failed, l, db') ]

  -- `ExtendLockWithValue`
  unfoldable pub extend_lock_with_value : Fate → ℕ → String → String → ℕ → Db → Reply Bool × Db
  unfolding lock_key send extend_script
  extend_lock_with_value fate now key value ttl db =
      let (r, db') = send fate (extend_script now (lock_key key) value ttl db) db in
      elim r [ reply n ↦ (reply (n == 1), db') | failed ↦ (failed, db') ]

  -- `Unlock`: the value is taken out of the map first; without one nothing is sent.
  unfoldable pub unlock : Fate → ℕ → String → RedisLock → Db → Reply (Unit {0}) × RedisLock × Db
  unfolding unlock_with_value
  unlock fate now key l db = elim (lookup key l.lock_values) [
    | none ↦ (reply tt, l, db)
    | some v ↦
        let l' : RedisLock = record { lock_values = remove key l.lock_values } in
        if v =ˢ "" then (reply tt, l', db) else unlock_with_value fate now key v l' db
  ]

  -- `ExtendLock`: an error where no value is kept, and otherwise only the call's own error.
  unfoldable pub extend_lock : Fate → ℕ → String → ℕ → RedisLock → Db → Reply (Unit {0}) × Db
  unfolding extend_lock_with_value
  extend_lock fate now key ttl l db = elim (lookup key l.lock_values) [
    | none ↦ (failed, db)
    | some v ↦
        if v =ˢ ""
        then (failed, db)
        else let (r, db') = extend_lock_with_value fate now key v ttl db in
          elim r [ reply _ ↦ (reply tt, db') | failed ↦ (failed, db') ]
  ]
