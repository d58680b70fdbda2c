-- ===== src/Lock/Local/Tests.antt =====
-- The in-process lock on the inputs of lock/lock_test.go, and the theorems at them.
use git_sync_core.Prelude.{
  ◌≡◌, refl, ◌≢◌, true, false, String, ℕ, List, [], ◌∷◌, arith, eq_iff, lookup, insert,
}
use git_sync_core.Lock.Backoff.{next_backoff}
use git_sync_core.Lock.Local.{
  LocalLock, new_local_lock, try_lock_with_ttl, Call, try, release, perform_all, Round, acquired,
  cancelled, lock,
}
use git_sync_core.Lock.Local.Hold.{exclusive_until_expiry}
use git_sync_core.Lock.Local.Wait.{lock_acquires}

-- "k" is held until 150.
abbrev held : LocalLock
held = record { entries = ("k", record { expires_at = 150 }) ∷ [] }

k_ne_j : ◌≢◌ {A = String} "k" "j"
k_ne_j = ground (arith, eq_iff "k" "j")

j_ne_k : ◌≢◌ {A = String} "j" "k"
j_ne_k = ground (arith, eq_iff "j" "k")

abbrev calls : List Call
calls = try "k" 7 20 ∷ release "j" ∷ try "j" 5 30 ∷ []

quiet_round : ℕ → Round
quiet_round now = record { now = now; done = false; others = try "j" 5 now ∷ [] }

abbrev wait_schedule : List Round
wait_schedule =
    record { now = 100; done = false; others = try "j" 5 100 ∷ [] }
    ∷ record { now = 151; done = false; others = [] }
    ∷ []

take_free : try_lock_with_ttl "k" 50 100 new_local_lock ≡ (true, held)
unfolding try_lock_with_ttl lookup insert
take_free = refl

wait_then_take : (lock "k" wait_schedule held).1 ≡ 100 ∷ []
unfolding lock perform_all lookup insert next_backoff
wait_then_take = refl

cancelled_wait : (lock "k" (record { now = 1; done = true; others = [] } ∷ []) held).0 ≡ cancelled
unfolding lock lookup
cancelled_wait = refl

exclusive_until_expiry_example :
    (try_lock_with_ttl "k" 9 150
      (perform_all (try_lock_with_ttl "k" 50 100 new_local_lock).1 calls)).0
    ≡ false
unfolding try_lock_with_ttl lookup
exclusive_until_expiry_example =
    exclusive_until_expiry "k" 50 100 new_local_lock calls 9 150 refl
      (omega arith, (j_ne_k, (omega arith, tt))) (omega arith)

lock_acquires_example : (lock "k" wait_schedule held).0 ≡ acquired
unfolding lookup
lock_acquires_example =
    lock_acquires "k" 150 wait_schedule held refl
      (record { alive = refl; foreign = (j_ne_k, tt) }, (record { alive = refl; foreign = tt }, tt))
      refl
