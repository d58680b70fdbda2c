-- ===== src/Guard/Local.antt =====
-- `localGuard` of service/concurrency.go. A send on the buffered channel, a receive, `LoadOrStore`
-- and `Delete` are the atomic steps; threads interleave between them.
pub mod Invariant
pub mod Safety
pub mod Tests
use git_sync_core.Prelude.{
  ℕ, zero, suc, ◌-◌, ◌+◌, ◌≡◌, ◌<◌, Bool, String, Option, none, some, [], ltb, ◌==◌, if◌then◌else◌,
  Table, lookup, insert, remove, Option-cases,
}
use git_sync_core.Prelude.Families.{at}
use git_sync_core.Prelude.Int.{ℤ, pos, leb_ℤ}

-- `sem` is the number of values in the channel; `limit` is its capacity.
pub record LocalGuard : Type 0 where
  pub running_tasks : Table (Unit {0})
  pub sem : ℕ
  pub limit : ℕ

-- `newLocalGuard`, with `model.DefaultMaxConcurrent` for a limit that is not positive.
unfoldable pub new_local_guard : ℤ → LocalGuard
new_local_guard (pos zero) = record { running_tasks = []; sem = 0; limit = 5 }
new_local_guard (pos (suc n)) = record { running_tasks = []; sem = 0; limit = suc n }
new_local_guard (ℤ.negsuc n) = record { running_tasks = []; sem = 0; limit = 5 }

-- `select { case g.sem <- struct{}{}: default: … }`
unfoldable pub push : LocalGuard → Option LocalGuard
push g = if ltb g.sem g.limit then some (record g { sem = g.sem + 1 }) else none

-- `<-g.sem`; `none` is a receive that has to wait.
unfoldable pub pop : LocalGuard → Option LocalGuard
pop g = if g.sem == 0 then none else some (record g { sem = g.sem - 1 })

-- `g.runningTasks.LoadOrStore(taskKey, struct{}{})`; `none` says that the key was there.
unfoldable pub store_new : String → LocalGuard → Option LocalGuard
store_new key g = elim (lookup key g.running_tasks) [
  | none ↦ some (record g { running_tasks = insert key tt g.running_tasks })
  | some _ ↦ none
]

-- `g.runningTasks.Delete(taskKey)`
unfoldable pub unmark : String → LocalGuard → LocalGuard
unmark key g = record g { running_tasks = remove key g.running_tasks }

-- Where a goroutine stands: outside; in `Acquire` with a slot; in `Acquire` about to give the slot
-- back; with the execution right; in the release function after the delete.
pub data Pc : Type 0 where
  outside : Pc
  slot : String → Pc
  backing : Pc
  holding : String → Pc
  leaving : Pc

unfoldable pub give_back : Pc → LocalGuard → LocalGuard × Pc
unfolding pop
give_back p g = elim (pop g) [ none ↦ (g, p) | some g' ↦ (g', outside) ]

-- One atomic step of a goroutine; `key` is the task that it asks for where it starts `Acquire`.
-- A goroutine that is refused is outside again.
unfoldable pub move : String → LocalGuard → Pc → LocalGuard × Pc
unfolding push store_new unmark give_back
move key g outside = elim (push g) [ none ↦ (g, outside) | some g' ↦ (g', slot key) ]
move key g (slot k) = elim (store_new k g) [ none ↦ (g, backing) | some g' ↦ (g', holding k) ]
move key g backing = give_back backing g
move key g (holding k) = (unmark k g, leaving)
move key g leaving = give_back leaving g

pub record System : Type 0 where
  pub guard : LocalGuard
  pub pc : ℕ → Pc

-- Goroutine `i` of `n` takes a step.
pub data Step (n : ℕ) (s : System) : System → Type 0 where
  pick :
      (i : ℕ) (key : String)
      → i < n
      → Step n s (record {
        guard = (move key s.guard (s.pc i)).0;
        pc = at s.pc i (move key s.guard (s.pc i)).1;
      })

abbrev pub start : ℤ → System
start max = record { guard = new_local_guard max; pc = λ _. outside }

pub data Reach (n : ℕ) (max : ℤ) : System → Type 0 where
  here : Reach n max (start max)
  next : {s t : System} → Reach n max s → Step n s t → Reach n max t

-- `Acquire` and its release function, run by one goroutine without interruption.
pub data Acquired : Type 0 where
  granted too_many_concurrent task_running : Acquired

unfoldable pub acquire : String → LocalGuard → Acquired × LocalGuard
unfolding push store_new pop
acquire key g = elim (push g) [
  | none ↦ (too_many_concurrent, g)
  | some g' ↦ elim (store_new key g') [
    | none ↦ elim (pop g') [ none ↦ (task_running, g') | some g'' ↦ (task_running, g'') ]
    | some g'' ↦ (granted, g'')
  ]
]

unfoldable pub release : String → LocalGuard → LocalGuard
unfolding unmark pop
release key g = elim (pop (unmark key g)) [ none ↦ unmark key g | some g' ↦ g' ]
