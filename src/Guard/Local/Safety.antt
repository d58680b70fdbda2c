-- ===== src/Guard/Local/Safety.antt =====
-- What the in-process guard promises to the executions that it lets through.
use git_sync_core.Prelude.{
  ℕ, ◌+◌, ◌≤◌, ◌<◌, ◌≡◌, refl, ◌∙◌, ◌⊎◌, inl, inr, String, none, some, arith, eq_iff, lookup,
  insert, lookup-insert, lookup-remove, Option-cases,
}
use git_sync_core.Prelude.Families.{tally, tally_none, tally_one, tally_mono}
use git_sync_core.Prelude.Int.{ℤ}
use git_sync_core.Guard.Local.{
  LocalGuard, new_local_guard, Pc, outside, backing, holding, leaving, move, System, Step, pick,
  Reach, here, next, granted, too_many_concurrent, task_running, acquire, release,
}
use git_sync_core.Guard.Local.Invariant.{inside, running, Reach-Inv}

-- In no reachable state do two goroutines hold the same task.
pub mutual_exclusion :
    {n : ℕ} {max : ℤ} {s : System}
    → Reach n max s
    → (i j : ℕ) (k : String) → s.pc i ≡ holding k
    → s.pc j ≡ holding k
    → i ≡ j
mutual_exclusion r i j k p q = (Reach-Inv r).unique i j k p q

limit_kept : (key : String) (g : LocalGuard) (p : Pc) → (move key g p).0.limit ≡ g.limit
unfolding move
limit_kept key g p = ground arith

Step-limit : {n : ℕ} {s t : System} → Step n s t → t.guard.limit ≡ s.guard.limit
Step-limit {s} (pick i key lt) = limit_kept key s.guard (s.pc i)

Reach-limit :
    {n : ℕ} {max : ℤ} {s : System} → Reach n max s → s.guard.limit ≡ (new_local_guard max).limit
Reach-limit here = refl
Reach-limit (next r st) = Step-limit st ∙ Reach-limit r

-- In every reachable state the goroutines that hold a task are at most the limit that the guard
-- was built with.
pub holders-le-limit :
    {n : ℕ} {max : ℤ} {s : System}
    → Reach n max s
    → tally running n s.pc ≤ (new_local_guard max).limit
holders-le-limit {n} {s} r = omega (
  arith,
  tally_mono running inside n s.pc (λ p. ground arith),
  (Reach-Inv r).counted,
  (Reach-Inv r).bounded,
  Reach-limit r,
)

-- A receive that gives a slot back never waits: in every reachable state a goroutine that is about
-- to do so is outside after its next step.
pub give_back_never_waits :
    {n : ℕ} {max : ℤ} {s : System}
    → Reach n max s
    → (i : ℕ) (key : String) → i < n
    → (s.pc i ≡ backing) ⊎ (s.pc i ≡ leaving)
    → (move key s.guard (s.pc i)).1 ≡ outside
unfolding move
give_back_never_waits {n} {s} r i key lt h =
    ground (arith, tally_one inside n s.pc i lt, (Reach-Inv r).counted)

-- When every goroutine is outside, no slot and no task mark is left behind.
pub nothing_left :
    {n : ℕ} {max : ℤ} {s : System}
    → Reach n max s
    → ((i : ℕ) → s.pc i ≡ outside)
    → (s.guard.sem ≡ 0) × ((k : String) → lookup k s.guard.running_tasks ≡ none)
nothing_left {n} {s} r quiet =
    ((Reach-Inv r).counted ∙ tally_none inside n s.pc (λ i. ground (arith, quiet i)), absent)
  where
    absent : (k : String) → lookup k s.guard.running_tasks ≡ none
    absent k = elim (Option-cases (lookup k s.guard.running_tasks)) [
      | inl e ↦ e
      | inr (u, e) ↦ let (i, held) = (Reach-Inv r).owned k e in cc (quiet i)
    ]

-- `Acquire` without interruption: at the limit it is refused as too many; below it, a task that is
-- marked is refused as running; both leave the guard as it was; otherwise the task is marked and one
-- more slot is in use.
pub acquire_outcome :
    (key : String) (g : LocalGuard)
    → (g.limit ≤ g.sem → acquire key g ≡ (too_many_concurrent, g))
      × (g.sem < g.limit → lookup key g.running_tasks ≡ some tt → acquire key g ≡ (task_running, g))
      × (g.sem < g.limit
          → lookup key g.running_tasks ≡ none
          → acquire key g ≡ (
            granted,
            record g { running_tasks = insert key tt g.running_tasks; sem = g.sem + 1 },
          ))
unfolding acquire
acquire_outcome key g = (λ h. ground arith, λ h e. ground arith, λ h e. ground arith)

-- The release function of a granted `Acquire` restores the number of slots and every task mark.
pub release-acquire :
    (key : String) (g : LocalGuard)
    → (acquire key g).0 ≡ granted
    → ((release key (acquire key g).1).sem ≡ g.sem)
      × ((j : String)
          → lookup j (release key (acquire key g).1).running_tasks ≡ lookup j g.running_tasks)
unfolding acquire release
release-acquire key g h = (
  ground arith,
  λ j. ground (
    arith,
    eq_iff key j,
    lookup-insert key j tt g.running_tasks,
    lookup-remove key j (insert key tt g.running_tasks),
  ),
)
