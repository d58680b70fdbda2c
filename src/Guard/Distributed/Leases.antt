-- ===== src/Guard/Distributed/Leases.antt =====
-- What the distributed guard promises across processes.
use git_sync_core.Prelude.{
  ℕ, ◌+◌, ◌<◌, ◌≡◌, refl, ◌≢◌, sym, ap, subst, Bool, true, false, String, none, List, [], ◌∷◌,
  arith, eq_iff, All,
}
use git_sync_core.Lock.Redis.{
  KeyStore, SortedSet, Fate, answered, unanswered, unreached, Reply, reply, failed,
}
use git_sync_core.Lock.RedisLock.{extend_lock_with_value}
use git_sync_core.Lock.RedisLock.Ownership.{
  Command, perform_all, Held, Allowed, granted_takes, not_granted, perform_all-Held, extended,
}
use git_sync_core.Lock.Semaphore
use git_sync_core.Lock.Semaphore.{Semaphore}
use git_sync_core.Guard.Distributed.{
  World, Attempt, Acquired, granted, acquire, after_lock, after_slot, lock_task, tick,
  task_lock_key, task_lock_ttl,
}

-- One tick of the watchdog, after what other processes sent since the last one.
pub record Beat : Type 0 where
  pub others : List Command
  pub slot_fate : Fate
  pub now : ℕ

-- The deadline of the lock after the ticks.
abbrev pub lease : ℕ → List Beat → ℕ
lease t [] = t
lease t (b ∷ bs) = lease (b.now + task_lock_ttl) bs

-- Every tick comes before the deadline that the one before it set, and so does all that others
-- send; they use other values.
abbrev pub OnTime : String → ℕ → List Beat → Type 0
OnTime value t [] = Unit {0}
OnTime value t (b ∷ bs) =
    All (Allowed value t) b.others × (b.now < t) × OnTime value (b.now + task_lock_ttl) bs

module _ (K : KeyStore) (Z : SortedSet) where
  -- The lock of a task is held with `value` at least until `t`.
  abbrev pub TaskHeld : String → String → ℕ → World K Z → Type 0
  TaskHeld key value t w = Held K (task_lock_key key) value t w.keys

  after_lock_granted :
      (r : Reply Bool) (a : Attempt K Z) (w : World K Z) (v id : String)
      → (after_lock K Z r a w).0 ≡ granted v id
      → (r ≡ reply true) × ((after_lock K Z r a w).1 ≡ w)
  unfolding after_lock
  after_lock_granted (reply true) a w v id h = (refl, refl)
  after_lock_granted (reply false) a w v id h = absurd (cc)
  after_lock_granted failed a w v id h = absurd (cc)

  lock_task-TaskHeld :
      (key : String) (a : Attempt K Z) (w : World K Z) (v id : String)
      → (lock_task K Z key a w).0 ≡ granted v id
      → TaskHeld key a.value (a.now + task_lock_ttl) (lock_task K Z key a w).1
  unfolding lock_task
  lock_task-TaskHeld key a w v id h =
      let (won, same) = after_lock_granted _ a _ v id h in
      subst (Held K (task_lock_key key) a.value (a.now + task_lock_ttl))
        (sym (ap (λ (x : World K Z). x.keys) same))
        (granted_takes K (task_lock_key key) a.value a.lock_fate a.now task_lock_ttl w.rlock w.keys
          (omega arith) won)

  after_slot-TaskHeld :
      (r : Reply Bool) (key : String) (a : Attempt K Z) (w : World K Z) (v id : String)
      → (after_slot K Z r key a w).0 ≡ granted v id
      → TaskHeld key a.value (a.now + task_lock_ttl) (after_slot K Z r key a w).1
  unfolding after_slot
  after_slot-TaskHeld (reply true) key a w v id h = lock_task-TaskHeld key a w v id h
  after_slot-TaskHeld (reply false) key a w v id h = absurd (cc)
  after_slot-TaskHeld failed key a w v id h = absurd (cc)

  -- A granted `Acquire` holds the task's lock for the whole time to live.
  acquire-TaskHeld :
      (s : Semaphore) (key : String) (a : Attempt K Z) (w : World K Z) (v id : String)
      → (acquire K Z s key a w).0 ≡ granted v id
      → TaskHeld key a.value (a.now + task_lock_ttl) (acquire K Z s key a w).1
  unfolding acquire
  acquire-TaskHeld s key a w v id h = after_slot-TaskHeld _ key a _ v id h

  after_slot_excluded :
      (r : Reply Bool) (key value : String) (t : ℕ) (a : Attempt K Z) (w : World K Z)
      (v id : String)
      → TaskHeld key value t w
      → a.now < t
      → (after_slot K Z r key a w).0 ≢ granted v id
  unfolding after_slot lock_task
  after_slot_excluded (reply true) key value t a w v id held lt h =
      not_granted K (task_lock_key key) value a.lock_fate t a.now task_lock_ttl a.value w.rlock
        w.keys held lt (after_lock_granted _ a _ v id h).0
  after_slot_excluded (reply false) key value t a w v id held lt h = cc
  after_slot_excluded failed key value t a w v id held lt h = cc

  -- While a task is held, no `Acquire` of it is granted.
  acquire_excluded :
      (s : Semaphore) (key value : String) (t : ℕ) (a : Attempt K Z) (w : World K Z) (v id : String)
      → TaskHeld key value t w
      → a.now < t
      → (acquire K Z s key a w).0 ≢ granted v id
  unfolding acquire
  acquire_excluded s key value t a w v id held lt =
      after_slot_excluded _ key value t a _ v id held lt

  -- The process goes through its ticks; each call for the lock is answered.
  pub watch : Semaphore → (key value sem_id : String) → List Beat → ℕ × World K Z → ℕ × World K Z
  watch s key value id [] st = st
  watch s key value id (b ∷ bs) (failures, w) = watch s key value id bs (
      tick K Z answered b.slot_fate b.now s key value id
        (failures, record w { keys = perform_all K (task_lock_key key) w.keys b.others }))

  tick-TaskHeld :
      (s : Semaphore) (key value id : String) (t : ℕ) (f : Fate) (now n : ℕ) (w : World K Z)
      → TaskHeld key value t w
      → now < t
      → TaskHeld key value (now + task_lock_ttl) (tick K Z answered f now s key value id (n, w)).1
  unfolding tick extend_lock_with_value
  tick-TaskHeld s key value id t f now n w held lt =
      extended K (task_lock_key key) value t now task_lock_ttl w.keys held lt (omega arith)

  watch-TaskHeld :
      (s : Semaphore) (key value id : String) (t : ℕ) (bs : List Beat) (n : ℕ) (w : World K Z)
      → TaskHeld key value t w
      → OnTime value t bs
      → TaskHeld key value (lease t bs) (watch s key value id bs (n, w)).1
  unfolding watch
  watch-TaskHeld s key value id t [] n w held ok = held
  watch-TaskHeld s key value id t (b ∷ bs) n w held ok =
      watch-TaskHeld s key value id (b.now + task_lock_ttl) bs _ _
        (tick-TaskHeld s key value id t b.slot_fate b.now n _
          (perform_all-Held K (task_lock_key key) value t w.keys b.others held ok.0) ok.1)
        ok.2

  -- The world after the ticks and after what others send once the last of them is made.
  abbrev pub watched :
      Semaphore
      → (key value sem_id : String) → List Beat
      → (last : List Command) → World K Z
      → World K Z
  watched s key value id bs last w =
      let w' = (watch s key value id bs (0, w)).1 in
      record w' { keys = perform_all K (task_lock_key key) w'.keys last }

  -- While a watchdog that was granted its task ticks in time, no `Acquire` of that task by any process
  -- is granted before the deadline that the last tick set, whatever lock commands others have sent
  -- for it before each tick and since the last one. The others' commands come before the deadline
  -- that stands and use other values, and the execution itself has not released the task.
  pub watchdog_excludes :
      (s s' : Semaphore) (key : String) (a : Attempt K Z) (w : World K Z) (v id : String)
      (bs : List Beat) (last : List Command) (a' : Attempt K Z) (v' id' : String)
      → (acquire K Z s key a w).0 ≡ granted v id
      → OnTime a.value (a.now + task_lock_ttl) bs
      → All (Allowed a.value (lease (a.now + task_lock_ttl) bs)) last
      → a'.now < lease (a.now + task_lock_ttl) bs
      → (acquire K Z s' key a' (watched s key a.value id bs last (acquire K Z s key a w).1)).0
        ≢ granted v' id'
  watchdog_excludes s s' key a w v id bs last a' v' id' won ok allowed lt =
      let deadline = lease (a.now + task_lock_ttl) bs in
      let held =
        watch-TaskHeld s key a.value id (a.now + task_lock_ttl) bs 0 _
          (acquire-TaskHeld s key a w v id won) ok in
      acquire_excluded s' key a.value deadline a' _ v' id'
        (perform_all-Held K (task_lock_key key) a.value deadline _ last held allowed) lt

  abbrev IsRefused : Acquired × World K Z → Type 0
  IsRefused r = (v id : String) → r.0 ≢ granted v id

  after_lock_slot :
      (r : Reply Bool) (a : Attempt K Z) (w : World K Z)
      → a.release_fate ≡ answered
      → IsRefused (after_lock K Z r a w)
      → Z.score (after_lock K Z r a w).1.slots a.sem_id ≡ none
  unfolding after_lock Semaphore.release
  after_lock_slot (reply true) a w e h = absurd (h a.value a.sem_id refl)
  after_lock_slot (reply false) a w e h =
      rw e (ground (arith, eq_iff a.sem_id a.sem_id, Z.score-rem a.sem_id w.slots a.sem_id))
  after_lock_slot failed a w e h =
      rw e (ground (arith, eq_iff a.sem_id a.sem_id, Z.score-rem a.sem_id w.slots a.sem_id))

  after_slot_slot :
      (r : Reply Bool) (key : String) (a : Attempt K Z) (w : World K Z)
      → a.release_fate ≡ answered
      → (r ≢ reply true → Z.score w.slots a.sem_id ≡ none)
      → IsRefused (after_slot K Z r key a w)
      → Z.score (after_slot K Z r key a w).1.slots a.sem_id ≡ none
  unfolding after_slot lock_task
  after_slot_slot (reply true) key a w e f h = after_lock_slot _ a _ e h
  after_slot_slot (reply false) key a w e f h = f (λ p. cc)
  after_slot_slot failed key a w e f h = f (λ p. cc)

  fresh_slot :
      (f : Fate) (s : Semaphore) (now later : ℕ) (id : String) (db : Z.Db)
      → f ≢ unanswered
      → Z.score db id ≡ none
      → (Semaphore.acquire Z f s now later id db).0 ≢ reply true
      → Z.score (Semaphore.acquire Z f s now later id db).1 id ≡ none
  unfolding Semaphore.acquire Semaphore.acquire_script
  fresh_slot answered s now later id db ne e h = ground (arith, Z.score-drop_up_to now db id)
  fresh_slot unanswered s now later id db ne e h = absurd (ne refl)
  fresh_slot unreached s now later id db ne e h = e

  -- An `Acquire` that is not granted leaves no slot behind: if its identifier was new, its reply
  -- for the slot was not lost and its call to give the slot back is answered, the identifier is
  -- not in the set afterwards.
  pub refused_leaves_no_slot :
      (s : Semaphore) (key : String) (a : Attempt K Z) (w : World K Z)
      → Z.score w.slots a.sem_id ≡ none
      → a.sem_fate ≢ unanswered
      → a.release_fate ≡ answered
      → ((v id : String) → (acquire K Z s key a w).0 ≢ granted v id)
      → Z.score (acquire K Z s key a w).1.slots a.sem_id ≡ none
  unfolding acquire
  refused_leaves_no_slot s key a w e ne re h =
      after_slot_slot _ key a _ re
        (fresh_slot a.sem_fate s a.slot_now a.slot_later a.sem_id w.slots ne e) h
