-- ===== src/Lock/Local.antt =====
-- `LocalLock` of lock/lock.go. The mutex makes each method one step. Time is an argument in
-- nanoseconds: it is what `time.Now()` returned in the call.
pub mod Hold
pub mod Wait
pub mod Tests
use git_sync_core.Prelude.{
  ℕ, zero, suc, ◌+◌, ◌≤◌, ◌≡◌, refl, Bool, true, false, String, Option, none, some, List, [], ◌∷◌,
  ltb, if◌then◌else◌, Table, lookup, insert, remove,
}
use git_sync_core.Lock.Backoff.{first_backoff, next_backoff}

-- `localLockEntry`
pub record LocalLockEntry : Type 0 where
  pub expires_at : ℕ

pub record LocalLock : Type 0 where
  pub entries : Table LocalLockEntry

abbrev pub new_local_lock : LocalLock
new_local_lock = record { entries = [] }

-- `defaultLockTTL`
abbrev pub default_lock_ttl : ℕ
default_lock_ttl = 30000000000

-- `!exists || now.After(entry.expiresAt)`
unfoldable pub is_free : ℕ → Option LocalLockEntry → Bool
is_free now none = true
is_free now (some e) = ltb e.expires_at now

unfoldable pub try_lock_with_ttl : String → ℕ → ℕ → LocalLock → Bool × LocalLock
unfolding is_free
try_lock_with_ttl key ttl now l =
    if is_free now (lookup key l.entries)
    then (true, record { entries = insert key (record { expires_at = now + ttl }) l.entries })
    else (false, l)

unfoldable pub try_lock : String → ℕ → LocalLock → Bool × LocalLock
unfolding try_lock_with_ttl
try_lock key now l = try_lock_with_ttl key default_lock_ttl now l

pub data UnlockResult : Type 0 where
  unlocked not_held : UnlockResult

unfoldable pub unlock : String → LocalLock → UnlockResult × LocalLock
unlock key l = elim (lookup key l.entries) [
  | none ↦ (not_held, l)
  | some _ ↦ (unlocked, record { entries = remove key l.entries })
]

-- A call that any goroutine makes between two rounds of a waiting `Lock`.
pub data Call : Type 0 where
  try : (key : String) (ttl now : ℕ) → Call
  release : (key : String) → Call

unfoldable pub perform : LocalLock → Call → LocalLock
unfolding try_lock_with_ttl unlock
perform l (try key ttl now) = (try_lock_with_ttl key ttl now l).1
perform l (release key) = (unlock key l).1

unfoldable pub perform_all : LocalLock → List Call → LocalLock
unfolding perform
perform_all l [] = l
perform_all l (c ∷ cs) = perform_all (perform l c) cs

-- One round of the loop of `Lock`: when it tries, whether the context ends before the timer, and
-- what the other goroutines do meanwhile.
pub record Round : Type 0 where
  pub now : ℕ
  pub done : Bool
  pub others : List Call

pub data LockOutcome : Type 0 where
  acquired cancelled waiting : LockOutcome

-- The loop over a finite schedule of rounds, with the backoff of each wait. `waiting` says that
-- the schedule ended first.
unfoldable pub lock_rounds : String → ℕ → List Round → LocalLock → LockOutcome × List ℕ × LocalLock
unfolding try_lock perform_all
lock_rounds key backoff [] l = (waiting, [], l)
lock_rounds key backoff (r ∷ rs) l =
    let (ok, l') = try_lock key r.now l in
    let (outcome, waits, final) =
      lock_rounds key (next_backoff backoff) rs (perform_all l' r.others) in
    if ok
    then (acquired, [], l')
    else if r.done
    then (cancelled, backoff ∷ [], l')
    else (outcome, backoff ∷ waits, final)

unfoldable pub lock : String → List Round → LocalLock → LockOutcome × List ℕ × LocalLock
unfolding lock_rounds
lock key rs l = lock_rounds key first_backoff rs l
