-- ===== src/Executor/Run/Stages.antt =====
-- The calls of the three stages of `Execute`, counted by a weight.
use git_sync_core.Prelude.{
  ℕ, suc, ◌+◌, ◌≤◌, ◌≡◌, refl, ap, Bool-cases, Option, none, some, Text, codes, arith, inl, inr,
  Option-cases, ◌++◌, zero, [],
}
use git_sync_core.Prelude.Int.{ℤ, pos, negsuc}
use git_sync_core.Model.Config.{Config}
use git_sync_core.Model.Entities.{Repo, SyncTask, SyncRun, SyncRunStep}
use git_sync_core.Executor.Errors.{GoError}
use git_sync_core.Executor.Environment.{Environment, Exec, say, Call}
use git_sync_core.Executor.Git.{Platforms, platform_of, ensure_remote, fetch_repo, clone_repo}
use git_sync_core.Executor.Steps.{begin_step, complete_step, push_loop, Round}
use git_sync_core.Executor.Run.{
  after_push, push_stage, remote_stage, after_source, source_stage, positive_or,
}
use git_sync_core.Executor.Run.Calls.{
  total, Counts, loop-total, begin_step-total, complete_step-total, fail_step-total,
  fetch_repo-total, clone_repo-total, ensure_remote_calls,
}

pub positive_or-suc : (d : ℕ) (x : ℤ) → (n : ℕ) × (positive_or (suc d) x ≡ suc n)
unfolding positive_or
positive_or-suc d (pos zero) = (d, refl)
positive_or-suc d (pos (suc n)) = (n, refl)
positive_or-suc d (negsuc n) = (d, refl)

module _ (E : Environment) (cfg : Config) {weight : Call → ℕ} {task : SyncTask} {top : ℕ}
    (C : Counts weight task top) (deadline : ℕ) (dir : Text) (source target : Repo)
    (platforms : Platforms) where
  after_push-total :
      (run : SyncRun) (step : SyncRunStep) (max : ℕ) (r : Round E)
      → total weight
          (after_push E cfg deadline dir task source target platforms run step max r).1.trace
        ≡ total weight r.2.trace
  unfolding after_push say
  after_push-total run step max (none, rc, s) =
      omega (arith, complete_step-total E C (record step { retry_count = rc }) [] s)
  after_push-total run step max (some e, rc, s) =
      omega (arith, fail_step-total E C (record step { retry_count = rc }) e s)

  push_stage-total :
      (run : SyncRun) (s : Exec E)
      → total weight (push_stage E cfg deadline dir task source target platforms run s).1.trace
        ≤ top + total weight s.trace
  unfolding push_stage say
  push_stage-total run s =
      let (n, positive) = positive_or-suc 2 cfg.sync.retry_count in
      let (step, s1) = begin_step E run.id "push" s in
      let s2 = say E (codes "\nStep 3: Push to target...\n") s1 in
      let source_platform = platform_of source.platform_id platforms in
      let target_platform = platform_of target.platform_id platforms in
      rw positive (
        omega (
          arith,
          begin_step-total E C run.id "push" s,
          loop-total E C deadline dir source target source_platform target_platform (suc n) n
              step.retry_count s2,
          after_push-total run step (suc n) (
              push_loop E deadline dir task source target source_platform target_platform (suc n)
                (suc n) 1 (none, step.retry_count, s2)),
        ))

  remote_stage-total :
      (run : SyncRun) (s : Exec E)
      → total weight (remote_stage E cfg deadline dir task source target platforms run s).1.trace
        ≤ top + total weight s.trace
  unfolding remote_stage say
  remote_stage-total run s =
      let (step, s1) = begin_step E run.id "ensure_remote" s in
      let s2 = say E (codes "\nStep 2: Ensure target remote exists...\n") s1 in
      let r = ensure_remote E deadline dir target s2 in
      let begun = begin_step-total E C run.id "ensure_remote" s in
      let same = ensure_remote_calls E deadline dir target s2 in
      elim (Option-cases r.0) [
        | inl e ↦
            let s3 = say E (codes "Step 2: completed\n") (complete_step E step [] r.1) in
            rw (e, remote_stage)
              (omega (
                arith,
                begun,
                ap (total weight) same,
                complete_step-total E C step [] r.1,
                push_stage-total run s3,
              ))
        | inr (x, e) ↦
            rw (e, remote_stage)
              (omega (arith, begun, ap (total weight) same, fail_step-total E C step x r.1))
      ]

  after_source-total :
      (failure line : Text) (run : SyncRun) (step : SyncRunStep) (o : Option GoError) (s : Exec E)
      → total weight
          (after_source E cfg deadline dir task source target platforms failure line run step
            (o, s)).1.trace
        ≤ top + total weight s.trace
  unfolding after_source say
  after_source-total failure line run step (some e) s = omega (arith, fail_step-total E C step e s)
  after_source-total failure line run step none s = omega (
    arith,
    complete_step-total E C step [] s,
    remote_stage-total run (say E (codes "Step 1: completed\n") (complete_step E step [] s)),
  )

  -- A run makes no counted call beside those of its first push.
  pub source_stage-total :
      (run : SyncRun) (s : Exec E)
      → total weight (source_stage E cfg deadline dir task source target platforms run s).1.trace
        ≤ top + total weight s.trace
  unfolding source_stage say
  source_stage-total run s =
      let platform = platform_of source.platform_id platforms in
      elim (Bool-cases (Environment.exists E (dir ++ codes "/.git") s.world)) [
        | inl there ↦
            let (step, s1) = begin_step E run.id "fetch" s in
            let s2 = say E (codes "Step 1: Fetch updates from source repo...\n") s1 in
            let (o, s3) = fetch_repo E deadline dir task source platform s2 in
            rw (there, source_stage)
              (omega (
                arith,
                begin_step-total E C run.id "fetch" s,
                fetch_repo-total E C deadline dir task source platform s2,
                after_source-total (codes "fetch failed") (codes "fetch error: ") run step o s3,
              ))
        | inr absent ↦
            let (step, s1) = begin_step E run.id "clone" s in
            let s2 = say E (codes "Step 1: Initial clone of source repo...\n") s1 in
            let (o, s3) = clone_repo E deadline dir source task platform s2 in
            rw (absent, source_stage)
              (omega (
                arith,
                begin_step-total E C run.id "clone" s,
                clone_repo-total E C deadline dir source task platform s2,
                after_source-total (codes "clone failed") (codes "clone error: ") run step o s3,
              ))
      ]
