-- ===== src/Lock/RedisLock/Tests.antt =====
-- The redis lock on a server in memory, and the theorems at it.
use git_sync_core.Prelude.{
  ◌≡◌, refl, ◌≢◌, inr, true, false, String, List, [], ◌∷◌, arith, eq_iff, lookup,
}
use git_sync_core.Lock.Redis.{answered, unanswered, reply}
use git_sync_core.Lock.Redis.Instances.{memory_keys, Keys, set_if_absent}
use git_sync_core.Lock.RedisLock.{RedisLock, lock_key, lock_with_ttl, unlock}
use git_sync_core.Lock.RedisLock.Ownership.{
  Command, acquire, extend, perform_all, Held, exclusive_until_deadline,
}

abbrev fresh : RedisLock
fresh = record { lock_values = [] }

b_ne_a : ◌≢◌ {A = String} "b" "a"
b_ne_a = ground (arith, eq_iff "b" "a")

-- Another process tries, releases with its own value and extends; the holder extends too.
abbrev meanwhile : List Command
meanwhile =
    acquire answered 1500 "b" 9
    ∷ Command.unlock unanswered 1600 "b"
    ∷ extend answered 1700 "a" 900
    ∷ []

taken : (lock_with_ttl memory_keys answered 1000 "t" "a" 1000 fresh []).0 ≡ reply true
unfolding lock_with_ttl set_if_absent lookup
taken = refl

-- The other process keeps no value, so its `Unlock` sends nothing.
unlock_unowned : (db : Keys) → unlock memory_keys answered 5 "t" fresh db ≡ (reply tt, fresh, db)
unfolding unlock lookup
unlock_unowned db = refl

exclusive_until_deadline_example :
    (lock_with_ttl memory_keys answered 1999 "t" "c" 5 fresh (
      perform_all memory_keys "t"
        (lock_with_ttl memory_keys answered 1000 "t" "a" 1000 fresh []).2
        meanwhile)).0
    ≡ reply false
exclusive_until_deadline_example =
    exclusive_until_deadline memory_keys "t" "a" 1000 1000 fresh [] meanwhile "c" 1999 5 fresh
      (omega arith) taken
      (omega arith, ((omega arith, b_ne_a), ((omega arith, omega arith, inr (omega arith)), tt)))
      (omega arith)

abbrev held_db : Keys
held_db = (lock_key "t", record { value = "a"; expires_at = 2000 }) ∷ []

held : Held memory_keys "t" "a" 2000 held_db
unfolding lookup lock_key
held = record { until = 2000; kept = refl; long_enough = omega arith }
