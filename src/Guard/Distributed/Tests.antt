-- ===== src/Guard/Distributed/Tests.antt =====
-- The distributed guard over servers in memory, and the theorems at them.
use git_sync_core.Prelude.{
  ◌≡◌, refl, ◌≢◌, none, String, ℕ, List, [], ◌∷◌, arith, eq_iff, lookup, insert, remove,
}
use git_sync_core.Lock.Redis.{answered, unreached}
use git_sync_core.Lock.Redis.Instances.{memory_keys, memory_set, set_if_absent, drop_scores}
use git_sync_core.Lock.RedisLock.Ownership.{acquire as acquires, Command}
use git_sync_core.Lock.RedisLock.{lock_key, lock_with_ttl}
use git_sync_core.Lock.Semaphore
use git_sync_core.Lock.Semaphore.{Semaphore}
use git_sync_core.Guard.Distributed.{World, Attempt, granted, task_running, acquire, task_lock_key}
use git_sync_core.Guard.Distributed.Leases.{
  Beat, watched, watchdog_excludes, refused_leaves_no_slot,
}

abbrev W : Type 0
W = World memory_keys memory_set

abbrev empty : W
empty = record { keys = []; slots = []; rlock = record { lock_values = [] } }

abbrev attempt : String → String → ℕ → Attempt memory_keys memory_set
attempt value id now = record {
  sem_fate = answered;
  lock_fate = answered;
  release_fate = answered;
  slot_now = now;
  slot_later = now;
  now = now;
  value = value;
  sem_id = id;
}

abbrev two : Semaphore
two = record { max = 2; slot_ttl = 30000 }

first_granted :
    (acquire memory_keys memory_set two "t" (attempt "a" "s1" 1000) empty).0 ≡ granted "a" "s1"
unfolding acquire Semaphore.acquire lock_with_ttl drop_scores set_if_absent lookup insert remove
first_granted = refl

b_ne_a : ◌≢◌ {A = String} "b" "a"
b_ne_a = ground (arith, eq_iff "b" "a")

abbrev beats : List Beat
beats =
    record { others = acquires answered 5000 "b" 9 ∷ []; slot_fate = answered; now = 11000 }
    ∷ record { others = Command.unlock answered 12000 "b" ∷ []; slot_fate = unreached; now = 21000 }
    ∷ []

-- What another process sends after the last tick.
abbrev after_last : List Command
after_last = acquires answered 30000 "b" 9 ∷ (Command.unlock answered 40000 "b" ∷ [])

watchdog_excludes_example :
    (acquire memory_keys memory_set two "t" (attempt "b" "s2" 50999) (
      watched memory_keys memory_set two "t" "a" "s1" beats after_last
        (acquire memory_keys memory_set two "t" (attempt "a" "s1" 1000) empty).1)).0
    ≢ granted "b" "s2"
watchdog_excludes_example =
    watchdog_excludes memory_keys memory_set two two "t" (attempt "a" "s1" 1000) empty "a" "s1"
      beats after_last (attempt "b" "s2" 50999) "b" "s2" first_granted
      ((omega arith, tt), omega arith, (((omega arith, b_ne_a), tt), omega arith, tt))
      (omega arith, ((omega arith, b_ne_a), tt)) (omega arith)

-- Another process holds the task until 90000.
abbrev held_elsewhere : W
held_elsewhere = record empty {
  keys = (lock_key (task_lock_key "t"), record { value = "a"; expires_at = 90000 }) ∷ [];
}

second_refused :
    (acquire memory_keys memory_set two "t" (attempt "b" "s2" 2000) held_elsewhere).0 ≡ task_running
unfolding acquire Semaphore.acquire lock_with_ttl drop_scores set_if_absent lookup insert remove
    lock_key task_lock_key
second_refused = refl

refused_leaves_no_slot_example :
    lookup "s2"
      (acquire memory_keys memory_set two "t" (attempt "b" "s2" 2000) held_elsewhere).1.slots
    ≡ none
unfolding lookup
refused_leaves_no_slot_example =
    refused_leaves_no_slot memory_keys memory_set two "t" (attempt "b" "s2" 2000) held_elsewhere
      refl (λ e. cc) refl (λ v id e. cc second_refused)
