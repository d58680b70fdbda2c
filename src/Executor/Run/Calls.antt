-- ===== src/Executor/Run/Calls.antt =====
-- How often the parts of `Execute` make a kind of call, counted by a weight on calls.
use git_sync_core.Prelude.{
  ℕ, suc, ◌+◌, ◌≤◌, ◌≡◌, refl, true, Option, none, some, List, [], ◌∷◌, Text, codes, ◌-◌, String,
  arith, inl, inr, Option-cases,
}
use git_sync_core.Model.Entities.{Repo, Platform, SyncTask, SyncRunStep}
use git_sync_core.Executor.Errors.{GoError, classify}
use git_sync_core.Executor.Environment.{
  Environment, Exec, say, note, Call, cloned, fetched, pushed, step_begun, step_ended, CloneOptions,
  FetchOptions, PushOptions,
}
use git_sync_core.Executor.Git.{
  ref_spec, auth_config, sync_remote_url, replace_remote, add_remote, fetch_repo, clone_repo,
  checkout_source, ensure_remote, push, fetch_options, push_options, remote_origin, remote_target,
}
use git_sync_core.Executor.Steps.{begin_step, complete_step, fail_step, fetch_again, push_loop}
use git_sync_core.Executor.Steps.Attempts.{push_calls, loop_pushed, loop_failed}

unfoldable pub total : (Call → ℕ) → List Call → ℕ
total weight [] = 0
total weight (c ∷ cs) = weight c + total weight cs

-- A weight that counts no call but the pushes of one task, and those as `top` at most.
pub record Counts (weight : Call → ℕ) (task : SyncTask) (top : ℕ) : Type 0 where
  pub clones : (o : CloneOptions) → weight (cloned o) ≡ 0
  pub fetches : (o : FetchOptions) → weight (fetched o) ≡ 0
  pub begins : (s : SyncRunStep) → weight (step_begun s) ≡ 0
  pub ends : (s : SyncRunStep) → weight (step_ended s) ≡ 0
  pub pushes :
      (o : PushOptions) (e : Option GoError)
      → o.ref_specs ≡ ref_spec task ∷ []
      → weight (pushed o e) ≤ top

module _ (E : Environment) where
  sync_remote_url_calls :
      (deadline : ℕ) (dir name want : Text) (s : Exec E)
      → (sync_remote_url E deadline dir name want s).1.trace ≡ s.trace
  unfolding sync_remote_url replace_remote add_remote
  sync_remote_url_calls deadline dir name want s = ground arith

  pub ensure_remote_calls :
      (deadline : ℕ) (dir : Text) (repo : Repo) (s : Exec E)
      → (ensure_remote E deadline dir repo s).1.trace ≡ s.trace
  unfolding ensure_remote add_remote
  ensure_remote_calls deadline dir repo s =
      ground (arith, sync_remote_url_calls deadline dir remote_target repo.clone_url s)

  fetch_repo_calls :
      (deadline : ℕ) (dir : Text) (t : SyncTask) (repo : Repo) (p : Option Platform) (s : Exec E)
      → (fetch_repo E deadline dir t repo p s).1.trace
        ≡ fetched (
            fetch_options E dir t repo p
              (sync_remote_url E deadline dir remote_origin repo.clone_url s).1.world)
          ∷ s.trace
  unfolding fetch_repo checkout_source note
  fetch_repo_calls deadline dir t repo p s =
      ground (arith, sync_remote_url_calls deadline dir remote_origin repo.clone_url s)

module _ (E : Environment) {weight : Call → ℕ} {task : SyncTask} {top : ℕ}
    (C : Counts weight task top) where
  open C use {clones, fetches, begins, ends, pushes}

  pub fetch_repo-total :
      (deadline : ℕ) (dir : Text) (t : SyncTask) (repo : Repo) (p : Option Platform) (s : Exec E)
      → total weight (fetch_repo E deadline dir t repo p s).1.trace ≡ total weight s.trace
  unfolding total
  fetch_repo-total deadline dir t repo p s =
      let opts =
        fetch_options E dir t repo p
          (sync_remote_url E deadline dir remote_origin repo.clone_url s).1.world in
      rw (fetch_repo_calls E deadline dir t repo p s) (omega (arith, fetches opts))

  pub clone_repo-total :
      (deadline : ℕ) (dir : Text) (repo : Repo) (t : SyncTask) (p : Option Platform) (s : Exec E)
      → total weight (clone_repo E deadline dir repo t p s).1.trace ≡ total weight s.trace
  unfolding clone_repo note total
  clone_repo-total deadline dir repo t p s =
      let opts : CloneOptions = record {
        url = repo.clone_url;
        path = dir;
        branch = t.source_branch;
        single_branch = true;
        auth = auth_config E repo p s.world;
      } in
      omega (arith, clones opts)

  pub begin_step-total :
      (run_id : ℕ) (name : String) (s : Exec E)
      → total weight (begin_step E run_id name s).1.trace ≡ total weight s.trace
  unfolding begin_step note total
  begin_step-total run_id name s = omega (arith, begins (begin_step E run_id name s).0)

  pub complete_step-total :
      (step : SyncRunStep) (output : Text) (s : Exec E)
      → total weight (complete_step E step output s).trace ≡ total weight s.trace
  unfolding complete_step note total
  complete_step-total step output s = omega (
    arith,
    ends (record step {
      end_time = some (Environment.now E s.world);
      duration_ms = Environment.now E s.world - step.start_time;
      status = "success";
      output = output;
    }),
  )

  pub fail_step-total :
      (step : SyncRunStep) (e : GoError) (s : Exec E)
      → total weight (fail_step E step e s).trace ≡ total weight s.trace
  unfolding fail_step note total
  fail_step-total step e s = omega (
    arith,
    ends (record step {
      end_time = some (Environment.now E s.world);
      duration_ms = Environment.now E s.world - step.start_time;
      status = "failed";
      error_msg = e.message;
      error_type = classify (some e);
    }),
  )

  module _ (deadline : ℕ) (dir : Text) (source target : Repo)
      (source_platform target_platform : Option Platform) (max : ℕ) where
    fetch_again-total :
        (attempt : ℕ) (s : Exec E)
        → total weight
            (fetch_again E deadline dir task source target source_platform target_platform max
              attempt s).trace
          ≡ total weight s.trace
    unfolding fetch_again say
    fetch_again-total attempt s = ground (
      arith,
      fetch_repo-total deadline dir task source source_platform
          (say E (codes "Push failed, retrying fetch...\n") s),
    )

    pub loop-total :
        (left rc : ℕ) (s : Exec E)
        → total weight
            (push_loop E deadline dir task source target source_platform target_platform max
              (suc left)
              1
              (none, rc, s)).2.trace
          ≤ top + total weight s.trace
    unfolding total
    loop-total left rc s =
        let opts = push_options E dir task target target_platform s.world in
        let p = push E deadline dir task target target_platform s in
        elim (Option-cases p.0) [
          | inl e ↦
              rw
                (loop_pushed E deadline dir task source target source_platform target_platform max
                  left rc s e)
                (ground (
                  arith,
                  push_calls E deadline dir task target target_platform s,
                  pushes opts p.0 (unfold push_options in refl),
                ))
          | inr (x, e) ↦ ground (
            arith,
            (loop_failed E deadline dir task source target source_platform target_platform max left
                rc x s e).0,
            fetch_again-total 1 p.1,
            push_calls E deadline dir task target target_platform s,
            pushes opts p.0 (unfold push_options in refl),
          )
        ]
