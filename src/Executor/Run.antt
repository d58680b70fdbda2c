-- ===== src/Executor/Run.antt =====
-- `Execute` of executor/executor.go with what it defers: the clean-up of the work directory and the
-- completion of the run.
pub mod Calls
pub mod Stages
pub mod Settling
pub mod Traces
pub mod Whole
pub mod Tests
use git_sync_core.Prelude.{
  ℕ, zero, suc, ◌+◌, ◌-◌, ◌*◌, ltb, Bool, true, false, not, String, Option, none, some, List, [],
  ◌∷◌, ◌++◌, Text, codes, is_empty, decimal, if◌then◌else◌, ◌=ˢ◌, length, take,
}
use git_sync_core.Prelude.Int.{ℤ, pos, negsuc}
use git_sync_core.Prelude.Utf.{utf8}
use git_sync_core.Model.Config.{Config}
use git_sync_core.Model.Entities.{Repo, Platform, SyncTask, SyncRun, SyncRunStep}
use git_sync_core.Executor.Errors.{GoError, classify, wrap, new_error}
use git_sync_core.Executor.Paths.{join_path}
use git_sync_core.Executor.Environment.{
  Environment, Outcome, done, error, Exec, say, note, Call, completed, dir_removed,
}
use git_sync_core.Executor.Git.{
  Platforms, prefetch_platforms, platform_of, default_branch_of, clone_repo, fetch_repo,
  ensure_remote,
}
use git_sync_core.Executor.Steps.{
  begin_step, complete_step, fail_step, push_loop, Round, error_line,
}

-- A setting with its default where it is not positive.
unfoldable pub positive_or : ℕ → ℤ → ℕ
positive_or d (pos zero) = d
positive_or d (pos (suc n)) = suc n
positive_or d (negsuc n) = d

-- 64 KB
abbrev pub max_details_size : ℕ
max_details_size = 65536

-- The cut of the details, which counts and cuts bytes.
unfoldable pub truncate_details : List ℕ → List ℕ
truncate_details d =
    if ltb max_details_size (length d)
    then take max_details_size d ++ codes "\n... (truncated)"
    else d

-- `failRun`
unfoldable pub fail_run : SyncRun → GoError → SyncRun × Option GoError
fail_run run e = (
  record run { status = "failed"; error_message = e.message; error_type = classify (some e) },
  some e,
)

-- The local copy of the task with the empty branches filled in.
unfoldable pub with_branches : Repo → Repo → SyncTask → SyncTask
with_branches source target task = record task {
  source_branch =
      if is_empty task.source_branch then default_branch_of (some source) else task.source_branch;
  target_branch =
      if is_empty task.target_branch then default_branch_of (some target) else task.target_branch;
}

-- `GetTempDir`
unfoldable pub temp_dir : Config → String → Text
temp_dir cfg key = join_path (codes cfg.git.temp_dir) (codes key)

module _ (E : Environment) (cfg : Config) where
  -- What a part of `Execute` returns: the run, the error and the state.
  abbrev pub Ended : Type 0
  Ended = (SyncRun × Option GoError) × Exec E

  abbrev failed_with : SyncRun → GoError → Exec E → Ended
  failed_with run e s = (fail_run run e, s)

  module _ (deadline : ℕ) (dir : Text) (task : SyncTask) (source target : Repo)
      (platforms : Platforms) where
    -- The answer of the loop of pushes, for the run and for the step.
    unfoldable pub after_push : SyncRun → SyncRunStep → (max : ℕ) → Round E → Ended
    after_push run step max (push_err, retry_count, s) =
        let run1 : SyncRun = record run { retry_total = retry_count } in
        let step1 : SyncRunStep = record step { retry_count = retry_count } in
        elim push_err [
          | some e ↦
              failed_with run1
                (wrap (codes "push failed after " ++ (decimal max ++ codes " attempts")) e)
                (say E (error_line (codes "push error: ") e) (fail_step E step1 e s))
          | none ↦ (
            (record run1 { status = "success" }, none),
            say E (codes "\n=== Sync completed successfully ===")
                (say E (codes "Step 3: completed\n") (complete_step E step1 [] s)),
          )
        ]

    -- Step 3
    unfoldable pub push_stage : SyncRun → Exec E → Ended
    push_stage run s =
        let (step, s1) = begin_step E run.id "push" s in
        let max = positive_or 3 cfg.sync.retry_count in
        after_push run step max (
          push_loop E deadline dir task source target (platform_of source.platform_id platforms)
            (platform_of target.platform_id platforms) max max 1
            (none, step.retry_count, say E (codes "\nStep 3: Push to target...\n") s1))

    -- Step 2
    unfoldable pub remote_stage : SyncRun → Exec E → Ended
    remote_stage run s =
        let (step, s1) = begin_step E run.id "ensure_remote" s in
        let (err, s2) =
          ensure_remote E deadline dir target
            (say E (codes "\nStep 2: Ensure target remote exists...\n") s1) in
        elim err [
          | some e ↦
              failed_with run (wrap (codes "add remote failed") e)
                (say E (error_line (codes "add remote error: ") e) (fail_step E step e s2))
          | none ↦ push_stage run (say E (codes "Step 2: completed\n") (complete_step E step [] s2))
        ]

    -- The end of step 1, with the words of its messages.
    unfoldable pub after_source :
        (failure line : Text) → SyncRun → SyncRunStep → Option GoError × Exec E → Ended
    after_source failure line run step (some e, s) =
        failed_with run (wrap failure e) (say E (error_line line e) (fail_step E step e s))
    after_source failure line run step (none, s) =
        remote_stage run (say E (codes "Step 1: completed\n") (complete_step E step [] s))

    -- Step 1: a clone where the directory has no repository yet, and a fetch where it has.
    unfoldable pub source_stage : SyncRun → Exec E → Ended
    source_stage run s =
        if Environment.exists E (dir ++ codes "/.git") s.world
        then (let (step, s1) = begin_step E run.id "fetch" s in
            after_source (codes "fetch failed") (codes "fetch error: ") run step (
              fetch_repo E deadline dir task source (platform_of source.platform_id platforms)
                (say E (codes "Step 1: Fetch updates from source repo...\n") s1)))
        else (let (step, s1) = begin_step E run.id "clone" s in
            after_source (codes "clone failed") (codes "clone error: ") run step (
              clone_repo E deadline dir source task (platform_of source.platform_id platforms)
                (say E (codes "Step 1: Initial clone of source repo...\n") s1)))

  -- The deferred clean-up: the directory of a run that did not succeed is removed.
  unfoldable pub clean_up : Text → Ended → Ended
  clean_up work_dir ((run, err), s) = if run.status =ˢ "success" then ((run, err), s) else (
    (run, err),
    note E (dir_removed work_dir) (Environment.remove_all E work_dir s.world).1 s,
  )

  -- `Execute` from the creation of the work directory on.
  unfoldable pub in_work_dir : SyncTask → (source target : Repo) → SyncRun → Exec E → Ended
  in_work_dir task source target run s =
      let platforms = prefetch_platforms E s.world source target in
      let work_dir = temp_dir cfg task.key in
      let (err, w) = Environment.make_dirs E work_dir s.world in
      let s1 : Exec E = record s { world = w } in
      elim err [
        | some e ↦ failed_with run (wrap (codes "create work dir failed") e) s1
        | none ↦ clean_up work_dir (
            source_stage (Environment.now E w + positive_or 300 cfg.sync.default_timeout * 1000)
              (join_path work_dir (codes "repo")) (with_branches source target task) source target
              platforms run s1)
      ]

  unfoldable pub find_target : SyncTask → (source : Repo) → SyncRun → Exec E → Ended
  find_target task source run s =
      elim (Environment.get_repo_by_key E task.target_repo_key s.world) [
        | error e ↦ failed_with run (wrap (codes "query target repo failed") e) s
        | done found ↦ elim found [
          | none ↦
              failed_with run
                (new_error (codes "target repo not found: " ++ codes task.target_repo_key)) s
          | some target ↦ in_work_dir task source target run s
        ]
      ]

  unfoldable pub find_source : SyncTask → SyncRun → Exec E → Ended
  find_source task run s = elim (Environment.get_repo_by_key E task.source_repo_key s.world) [
    | error e ↦ failed_with run (wrap (codes "query source repo failed") e) s
    | done found ↦ elim found [
      | none ↦
          failed_with run
            (new_error (codes "source repo not found: " ++ codes task.source_repo_key)) s
      | some source ↦ find_target task source run s
    ]
  ]

  -- The deferred completion of the run.
  unfoldable pub complete : SyncTask → (start : ℕ) → Ended → Ended
  complete task start ((run, err), s) =
      let now = Environment.now E s.world in
      let ended : SyncRun = record run {
        end_time = some now;
        duration_ms = now - start;
        details = truncate_details (utf8 s.details);
      } in
      (
        (ended, err),
        note E (completed ended task)
            (Environment.complete_run_with_task_update E ended task s.world) s,
      )

  unfoldable pub run_header : SyncTask → String → ℕ → Text
  run_header task trigger start =
      codes "=== Sync Task: "
      ++ (task.name
          ++ (codes " ===\nTrigger: "
              ++ (codes trigger
                  ++ (codes "\nTime: " ++ (Environment.format_time E start ++ codes "\n\n")))))

  -- `Execute`: nothing but the error where the run cannot be created.
  unfoldable pub execute :
      SyncTask → (trigger : String) → Option ℕ → Environment.World E → Outcome Ended
  execute task trigger webhook_event w =
      let (created, w1) = Environment.create_run E task trigger webhook_event w in
      elim created [
        | error e ↦ error e
        | done run ↦
            let start = Environment.now E w1 in
            done (
              complete task start (
                find_source task run
                  (record { world = w1; trace = []; details = run_header task trigger start })))
      ]
