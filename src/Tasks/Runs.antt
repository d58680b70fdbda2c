-- ===== src/Tasks/Runs.antt =====
-- `RunTaskWithTrigger` and `RunTaskAsync` of service/task.go, over the local guard. A run is an argument;
-- it leaves the guard alone.
use git_sync_core.Prelude.{
  true, false, String, Option, none, some, List, ◌∷◌, codes, if◌then◌else◌, ◌≡◌, refl, arith, Table,
  lookup, ◌<◌, ◌≤◌, ap, ◌∙◌,
}
use git_sync_core.Model.Entities.{SyncTask}
use git_sync_core.Executor.Errors.{GoError, new_error}
use git_sync_core.Tasks.{task_not_found}
use git_sync_core.Guard.Local.Safety.{acquire_outcome, release-acquire}
use git_sync_core.Guard.Local.{
  LocalGuard, granted, too_many_concurrent, task_running, acquire, release,
}

abbrev pub task_disabled : GoError
task_disabled = new_error (codes "task is disabled")

module _ (World : Type 0) (execute : SyncTask → World → Option GoError × World) where
  -- The guard, the tasks, the runs that were started, newest first, and the rest of the world.
  pub record Server : Type 0 where
    pub guard : LocalGuard
    pub tasks : Table SyncTask
    pub started : List String
    pub world : World

  unfoldable pub run : SyncTask → Server → Option GoError × Server
  run task s =
      let (err, w) = execute task s.world in
      (err, record s { world = w; started = task.key ∷ s.started })

  -- The task of a run that may be started.
  unfoldable pub runnable : String → Server → GoError × Option SyncTask
  runnable key s = elim (lookup key s.tasks) [
    | none ↦ (task_not_found, none)
    | some task ↦ if task.enabled then (task_disabled, some task) else (task_disabled, none)
  ]

  -- A run under the guard; the release is deferred.
  unfoldable pub run_guarded : String → SyncTask → Server → Option GoError × Server
  run_guarded key task s =
      let (answer, g) = acquire key s.guard in
      elim answer [
        | too_many_concurrent ↦
            (some (new_error (codes "too many concurrent sync tasks")), record s { guard = g })
        | task_running ↦
            (some (new_error (codes "task is already running")), record s { guard = g })
        | granted ↦
            let (err, s1) = run task (record s { guard = g }) in
            (err, record s1 { guard = release key s1.guard })
      ]

  -- `RunTaskWithTrigger`
  unfoldable pub run_task_with_trigger : String → Server → Option GoError × Server
  run_task_with_trigger key s =
      let (refusal, found) = runnable key s in
      elim found [ none ↦ (some refusal, s) | some task ↦ run_guarded key task s ]

  -- `RunTaskAsync`: the answer is given before the run, whose error is only logged.
  unfoldable pub run_task_async : String → Server → Option GoError × Server
  run_task_async key s =
      let (refusal, found) = runnable key s in
      elim found [ none ↦ (some refusal, s) | some task ↦ (none, (run task s).1) ]

module _ (World : Type 0) (execute : SyncTask → World → Option GoError × World) where
  -- Whether a run is started: the task is there and enabled, a slot is free, and no run of the task is
  -- marked.
  abbrev pub MayRun : String → Server World execute → SyncTask → Type 0
  MayRun key s task =
      (lookup key s.tasks ≡ some task)
      × (task.enabled ≡ true)
      × (s.guard.sem < s.guard.limit)
      × (lookup key s.guard.running_tasks ≡ none)

  runnable_found :
      (key : String) (s : Server World execute) (task : SyncTask)
      → lookup key s.tasks ≡ some task
      → task.enabled ≡ true
      → (runnable World execute key s).1 ≡ some task
  unfolding runnable
  runnable_found key s task found enabled = rw (found, runnable) (ground arith)

  trigger_runs :
      (key : String) (s : Server World execute) (task : SyncTask)
      → lookup key s.tasks ≡ some task
      → task.enabled ≡ true
      → run_task_with_trigger World execute key s ≡ run_guarded World execute key task s
  unfolding run_task_with_trigger
  trigger_runs key s task found enabled =
      rw (runnable_found key s task found enabled, run_task_with_trigger) refl

  trigger_refuses :
      (key : String) (s : Server World execute) (e : GoError)
      → runnable World execute key s ≡ (e, none)
      → run_task_with_trigger World execute key s ≡ (some e, s)
  unfolding run_task_with_trigger
  trigger_refuses key s e h =
      rw (h, run_task_with_trigger) (ap (λ x. (some x, s)) (ap (λ r. r.0) h))

  guarded_full :
      (key : String) (task : SyncTask) (s : Server World execute)
      → acquire key s.guard ≡ (too_many_concurrent, s.guard)
      → run_guarded World execute key task s
        ≡ (some (new_error (codes "too many concurrent sync tasks")), s)
  unfolding run_guarded
  guarded_full key task s h =
      rw (h, run_guarded)
        (ap
          (λ g. (some (new_error (codes "too many concurrent sync tasks")), record s { guard = g }))
          (ap (λ r. r.1) h))

  guarded_busy :
      (key : String) (task : SyncTask) (s : Server World execute)
      → acquire key s.guard ≡ (task_running, s.guard)
      → run_guarded World execute key task s
        ≡ (some (new_error (codes "task is already running")), s)
  unfolding run_guarded
  guarded_busy key task s h =
      rw (h, run_guarded)
        (ap (λ g. (some (new_error (codes "task is already running")), record s { guard = g }))
          (ap (λ r. r.1) h))

  guarded_granted :
      (key : String) (task : SyncTask) (s : Server World execute)
      → (acquire key s.guard).0 ≡ granted
      → ((run_guarded World execute key task s).1.started ≡ task.key ∷ s.started)
        × ((run_guarded World execute key task s).1.guard ≡ release key (acquire key s.guard).1)
  unfolding run_guarded run
  guarded_granted key task s h = rw (h, run_guarded) (refl, refl)

  -- A task that is asked for by a trigger runs where it is there and enabled, a slot is free and no run
  -- of it is marked; where one of these fails nothing is started, an error is returned and
  -- nothing is changed. The slots and the marks are afterwards as they were before.
  pub trigger_respects_guard :
      (key : String) (s : Server World execute) (task : SyncTask)
      → (MayRun key s task
          → ((run_task_with_trigger World execute key s).1.started ≡ task.key ∷ s.started)
            × ((run_task_with_trigger World execute key s).1.guard.sem ≡ s.guard.sem)
            × ((j : String)
                → lookup j (run_task_with_trigger World execute key s).1.guard.running_tasks
                  ≡ lookup j s.guard.running_tasks))
        × (lookup key s.tasks ≡ none
            → run_task_with_trigger World execute key s ≡ (some task_not_found, s))
        × (lookup key s.tasks ≡ some task
            → task.enabled ≡ false
            → run_task_with_trigger World execute key s ≡ (some task_disabled, s))
        × (lookup key s.tasks ≡ some task
            → task.enabled ≡ true
            → s.guard.limit ≤ s.guard.sem
            → run_task_with_trigger World execute key s
              ≡ (some (new_error (codes "too many concurrent sync tasks")), s))
        × (lookup key s.tasks ≡ some task
            → task.enabled ≡ true
            → s.guard.sem < s.guard.limit
            → lookup key s.guard.running_tasks ≡ some tt
            → run_task_with_trigger World execute key s
              ≡ (some (new_error (codes "task is already running")), s))
  unfolding runnable
  trigger_respects_guard key s task =
      let (full, busy, free) = acquire_outcome key s.guard in
      (
        (λ (found, enabled, slot, unmarked).
            let won = ap (λ r. r.0) (free slot unmarked) in
            let (started, after) = guarded_granted key task s won in
            let (sem, marks) = release-acquire key s.guard won in
            rw (trigger_runs key s task found enabled) (
              started,
              ap (λ g. g.sem) after ∙ sem,
              (λ j. ap (λ g. lookup j g.running_tasks) after ∙ marks j),
            )),
        (λ missing. trigger_refuses key s task_not_found (rw (missing, runnable) refl)),
        (λ found disabled.
            trigger_refuses key s task_disabled (rw (found, runnable) (ground arith))),
        (λ found enabled h.
            trigger_runs key s task found enabled ∙ guarded_full key task s (full h)),
        (λ found enabled h marked.
            trigger_runs key s task found enabled ∙ guarded_busy key task s (busy h marked)),
      )
