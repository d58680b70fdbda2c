-- ===== src/Executor/Run/Settling.antt =====
-- The state and the error of the run that the stages of `Execute` return.
use git_sync_core.Prelude.{
  ℕ, ◌≡◌, refl, Option, none, some, Text, codes, arith, inl, inr, Option-cases, Bool-cases, ◌++◌,
  [],
}
use git_sync_core.Model.Config.{Config}
use git_sync_core.Model.Entities.{Repo, SyncTask, SyncRun, SyncRunStep}
use git_sync_core.Executor.Errors.{GoError, wrap, classify}
use git_sync_core.Executor.Environment.{Environment, Exec, say}
use git_sync_core.Executor.Git.{Platforms, platform_of, ensure_remote, fetch_repo, clone_repo}
use git_sync_core.Executor.Steps.{Round, begin_step, complete_step, push_loop}
use git_sync_core.Executor.Run.{
  after_push, push_stage, remote_stage, after_source, source_stage, Ended, positive_or, clean_up,
  fail_run,
}

-- The state and the error fields of a run agree with the error that is returned.
abbrev pub Settled : SyncRun → Option GoError → Type 0
Settled run none = run.status ≡ "success"
Settled run (some e) =
    (run.status ≡ "failed") × (run.error_message ≡ e.message) × (run.error_type ≡ classify (some e))

module _ (E : Environment) (cfg : Config) where
  abbrev pub Done : Ended E cfg → Type 0
  Done r = Settled r.0.0 r.0.1

  pub fail_run-Settled :
      (run : SyncRun) (e : GoError) → Settled (fail_run run e).0 (fail_run run e).1
  unfolding fail_run
  fail_run-Settled run e = (refl, refl, refl)

  module _ (deadline : ℕ) (dir : Text) (task : SyncTask) (source target : Repo)
      (platforms : Platforms) where
    after_push-Settled :
        (run : SyncRun) (step : SyncRunStep) (max : ℕ) (r : Round E)
        → Done (after_push E cfg deadline dir task source target platforms run step max r)
    unfolding after_push fail_run
    after_push-Settled run step max (none, rc, s) = refl
    after_push-Settled run step max (some e, rc, s) = (refl, refl, refl)

    push_stage-Settled :
        (run : SyncRun) (s : Exec E)
        → Done (push_stage E cfg deadline dir task source target platforms run s)
    unfolding push_stage
    push_stage-Settled run s =
        let (step, s1) = begin_step E run.id "push" s in
        let max = positive_or 3 cfg.sync.retry_count in
        after_push-Settled run step max (
          push_loop E deadline dir task source target (platform_of source.platform_id platforms)
            (platform_of target.platform_id platforms) max max 1
            (none, step.retry_count, say E (codes "\nStep 3: Push to target...\n") s1))

    remote_stage-Settled :
        (run : SyncRun) (s : Exec E)
        → Done (remote_stage E cfg deadline dir task source target platforms run s)
    unfolding remote_stage
    remote_stage-Settled run s =
        let (step, s1) = begin_step E run.id "ensure_remote" s in
        let r =
          ensure_remote E deadline dir target
            (say E (codes "\nStep 2: Ensure target remote exists...\n") s1) in
        elim (Option-cases r.0) [
          | inl e ↦
              rw (e, remote_stage)
                (push_stage-Settled run
                  (say E (codes "Step 2: completed\n") (complete_step E step [] r.1)))
          | inr (x, e) ↦
              rw (e, remote_stage) (fail_run-Settled run (wrap (codes "add remote failed") x))
        ]

    after_source-Settled :
        (failure line : Text) (run : SyncRun) (step : SyncRunStep) (r : Option GoError × Exec E)
        → Done
            (after_source E cfg deadline dir task source target platforms failure line run step r)
    unfolding after_source
    after_source-Settled failure line run step (some e, s) = fail_run-Settled run (wrap failure e)
    after_source-Settled failure line run step (none, s) =
        remote_stage-Settled run (say E (codes "Step 1: completed\n") (complete_step E step [] s))

    pub source_stage-Settled :
        (run : SyncRun) (s : Exec E)
        → Done (source_stage E cfg deadline dir task source target platforms run s)
    unfolding source_stage
    source_stage-Settled run s =
        let platform = platform_of source.platform_id platforms in
        elim (Bool-cases (Environment.exists E (dir ++ codes "/.git") s.world)) [
          | inl there ↦
              let (step, s1) = begin_step E run.id "fetch" s in
              rw (there, source_stage)
                (after_source-Settled (codes "fetch failed") (codes "fetch error: ") run step (
                  fetch_repo E deadline dir task source platform
                    (say E (codes "Step 1: Fetch updates from source repo...\n") s1)))
          | inr absent ↦
              let (step, s1) = begin_step E run.id "clone" s in
              rw (absent, source_stage)
                (after_source-Settled (codes "clone failed") (codes "clone error: ") run step (
                  clone_repo E deadline dir source task platform
                    (say E (codes "Step 1: Initial clone of source repo...\n") s1)))
        ]

  pub clean_up-Settled : (dir : Text) (r : Ended E cfg) → Done r → Done (clean_up E cfg dir r)
  unfolding clean_up
  clean_up-Settled dir ((run, none), s) h = ground arith
  clean_up-Settled dir ((run, some e), s) h = ground arith
