-- ===== src/Guard/Local/Tests.antt =====
-- The in-process guard on the inputs of service/concurrency_test.go, and the theorems at them.
use mathlib.Core.Path.{◌≡◌, refl}
use git_sync_core.Prelude.{ℕ, zero, suc, List, ◌≤◌, String, [], ◌∷◌, arith, lookup, insert, remove}
use git_sync_core.Prelude.Families.{tally}
use native.Mathlib.Decide.{dec_lt, ℕ_discrete}
use git_sync_core.Prelude.Int.{ℤ, pos}
use git_sync_core.Guard.Local.{
  LocalGuard, new_local_guard, outside, move, System, Reach, here, next, pick, granted, acquire,
}
use git_sync_core.Guard.Local.Invariant.{running}
use git_sync_core.Guard.Local.Safety.{mutual_exclusion, holders-le-limit}

-- A reachable state by evaluation: each goroutine of the schedule takes a step for its task.
record Trace (n : ℕ) (max : ℤ) : Type 0 where
  last : System
  reach : Reach n max last

turn : {n : ℕ} {max : ℤ} → Trace n max → ℕ × String → Trace n max
unfolding dec_lt
turn {n} t (i, key) = elim (dec_lt i n) [
  | yes lt ↦ record { last = _; reach = next t.reach (pick i key lt) }
  | no _ ↦ t
]

run : (n : ℕ) (max : ℤ) → List (ℕ × String) → Trace n max
unfolding turn move new_local_guard lookup insert remove ℕ_discrete
run n max [] = record { last = _; reach = here }
run n max (p ∷ ps) = turn (run n max ps) p

-- Schedules are read from the right. Goroutine 0 holds "t", 1 is refused, 2 is refused.
abbrev contended : Trace 3 (pos 2)
contended = run 3 (pos 2) ((2, "u") ∷ (1, "t") ∷ (1, "t") ∷ (0, "t") ∷ (0, "t") ∷ [])

abbrev finished : Trace 1 (pos 1)
finished = run 1 (pos 1) ((0, "t") ∷ (0, "t") ∷ (0, "t") ∷ (0, "t") ∷ [])

finished_outside : (i : ℕ) → finished.last.pc i ≡ outside
unfolding run
finished_outside zero = refl
finished_outside (suc i) = ground arith

mutual_exclusion_example : ◌≡◌ {A = ℕ} 0 0
unfolding run
mutual_exclusion_example = mutual_exclusion contended.reach 0 0 "t" refl refl

holders-le-limit_example : tally running 3 contended.last.pc ≤ (new_local_guard (pos 2)).limit
holders-le-limit_example = holders-le-limit contended.reach

abbrev busy : LocalGuard
busy = record { running_tasks = ("t", tt) ∷ []; sem = 1; limit = 2 }

granted_u : (acquire "u" busy).0 ≡ granted
unfolding acquire lookup
granted_u = refl
