-- ===== src/Executor/Run/Whole.antt =====
-- What a run of `Execute` leaves behind.
use git_sync_core.Prelude.{
  ℕ, ◌≤◌, ◌≡◌, refl, ap, sym, Text, if◌then◌else◌, Option, none, some, codes, arith, inl, inr,
  Option-cases, String, ◌++◌, List, [], ◌∷◌, ◌⊎◌, is_empty,
}
use git_sync_core.Model.Config.{Config}
use git_sync_core.Model.Entities.{Repo, SyncTask, SyncRun}
use git_sync_core.Executor.Errors.{GoError, wrap, new_error}
use git_sync_core.Executor.Environment.{
  Environment, Exec, note, Call, dir_removed, completed, Outcome, done, error,
}
use git_sync_core.Executor.Git.{ref_spec, default_branch_of}
use git_sync_core.Executor.Run.{
  Ended, fail_run, clean_up, in_work_dir, find_target, find_source, complete, execute,
  with_branches, temp_dir, run_header,
}
use git_sync_core.Executor.Run.Calls.{total}
use git_sync_core.Executor.Run.Settling.{Settled, Done, fail_run-Settled}
use git_sync_core.Executor.Run.Traces.{
  is_completion, is_removal, is_astray, completion-Counts, removal-Counts, astray-Counts,
  in_work_dir-Settled, in_work_dir-total, staged, staged-Settled, staged-total, clean_up_success,
  clean_up_failure,
}

pub Outcome-cases {ℓ} :
    {A : Type ℓ} (o : Outcome A) → ((e : GoError) × (o ≡ error e)) ⊎ ((a : A) × (o ≡ done a))
Outcome-cases (done a) = inr (a, refl)
Outcome-cases (error e) = inl (e, refl)

-- A property of what `Execute` ends with that a failed run has and a run in the work directory has.
module _ (E : Environment) (cfg : Config) (P : Exec E → Ended E cfg → Type 0)
    (refused : (run : SyncRun) (e : GoError) (s : Exec E) → P s (fail_run run e, s))
    (worked : (task : SyncTask) (source target : Repo) (run : SyncRun) (s : Exec E)
      → P s (in_work_dir E cfg task source target run s)) where
  find_target_lem :
      (task : SyncTask) (source : Repo) (run : SyncRun) (s : Exec E)
      → P s (find_target E cfg task source run s)
  unfolding find_target
  find_target_lem task source run s =
      elim (Outcome-cases (Environment.get_repo_by_key E task.target_repo_key s.world)) [
        | inl (x, e) ↦
            rw (e, find_target) (refused run (wrap (codes "query target repo failed") x) s)
        | inr (o, e) ↦ elim (Option-cases o) [
          | inl f ↦
              rw (e, f, find_target)
                (refused run
                  (new_error (codes "target repo not found: " ++ codes task.target_repo_key)) s)
          | inr (target, f) ↦ rw (e, f, find_target) (worked task source target run s)
        ]
      ]

  pub find_source_lem :
      (task : SyncTask) (run : SyncRun) (s : Exec E) → P s (find_source E cfg task run s)
  unfolding find_source
  find_source_lem task run s =
      elim (Outcome-cases (Environment.get_repo_by_key E task.source_repo_key s.world)) [
        | inl (x, e) ↦
            rw (e, find_source) (refused run (wrap (codes "query source repo failed") x) s)
        | inr (o, e) ↦ elim (Option-cases o) [
          | inl f ↦
              rw (e, f, find_source)
                (refused run
                  (new_error (codes "source repo not found: " ++ codes task.source_repo_key)) s)
          | inr (source, f) ↦ rw (e, f, find_source) (find_target_lem task source run s)
        ]
      ]

module _ (E : Environment) (cfg : Config) (task : SyncTask) (trigger : String) (event : Option ℕ)
    (w : Environment.World E) where
  abbrev began : Environment.World E → Exec E
  began w1 = record {
    world = w1;
    trace = [];
    details = run_header E cfg task trigger (Environment.now E w1);
  }

  execute-inv :
      (r : Ended E cfg)
      → execute E cfg task trigger event w ≡ done r
      → (run : SyncRun) × (w1 : Environment.World E) × (r
          ≡ complete E cfg task (Environment.now E w1) (find_source E cfg task run (began w1)))
  unfolding execute
  execute-inv r h = elim (Outcome-cases (Environment.create_run E task trigger event w).0) [
    | inl (x, e) ↦ absurd (cc)
    | inr (run, e) ↦ (run, (Environment.create_run E task trigger event w).1, cc)
  ]

  complete-Settled :
      (start : ℕ) (b : Ended E cfg) → Done E cfg b → Done E cfg (complete E cfg task start b)
  unfolding complete
  complete-Settled start ((run, none), s) h = h
  complete-Settled start ((run, some e), s) h = h

  complete_calls :
      (start : ℕ) (b : Ended E cfg)
      → (complete E cfg task start b).1.trace
        ≡ completed (complete E cfg task start b).0.0 task ∷ b.1.trace
  unfolding complete note
  complete_calls start b = refl

  -- A run that was created is completed exactly once, by the last call that `Execute` makes. It is
  -- completed as it is returned: with the state `success` where no error is returned, and else
  -- with the state `failed`, the error's message and its class; never as `running`.
  pub completed_once :
      (r : Ended E cfg)
      → execute E cfg task trigger event w ≡ done r
      → Settled r.0.0 r.0.1
        × ((before : List Call) × (r.1.trace ≡ completed r.0.0 task ∷ before)
            × (total is_completion before ≡ 0))
  unfolding total
  completed_once r h =
      let (run, w1, e) = execute-inv r h in
      let b = find_source E cfg task run (began w1) in
      let settled =
        find_source_lem E cfg (λ s b. Done E cfg b) (λ run e s. fail_run-Settled E cfg run e)
          (in_work_dir-Settled E cfg) task run (began w1) in
      let calls =
        find_source_lem E cfg (λ s b. total is_completion b.1.trace ≤ total is_completion s.trace)
          (λ run e s. omega arith)
          (λ t source target run s. omega (
            arith,
            in_work_dir-total E cfg is_completion 0 (λ d. refl) t source target run s
                (completion-Counts (with_branches source target t)),
          ))
          task run (began w1) in
      rw e (
        complete-Settled (Environment.now E w1) b settled,
        (b.1.trace, complete_calls (Environment.now E w1) b, omega (arith, calls)),
      )

-- The first of some texts that is not empty.
abbrev pub first_text : List Text → Text
first_text [] = []
first_text ([] ∷ ts) = first_text ts
first_text ((c ∷ t) ∷ ts) = c ∷ t

-- The refspec that a run is to push.
abbrev pub named_spec : SyncTask → (source target : Repo) → Text
named_spec task source target =
    codes "refs/heads/"
    ++ (first_text (task.source_branch ∷ (source.default_branch ∷ (codes "main" ∷ [])))
        ++ (codes ":refs/heads/"
            ++ first_text (task.target_branch ∷ (target.default_branch ∷ (codes "main" ∷ [])))))

branch-first_text :
    (given : Text) (r : Repo)
    → (if is_empty given then default_branch_of (some r) else given)
      ≡ first_text (given ∷ (r.default_branch ∷ (codes "main" ∷ [])))
unfolding default_branch_of is_empty
branch-first_text (c ∷ t) r = refl
branch-first_text [] r =
    elim r.default_branch
      as (λ b. (if is_empty b then codes "main" else b) ≡ first_text (b ∷ (codes "main" ∷ []))) [
        | [] ↦ refl
        | c ∷ t ↦ refl
      ]

ref_spec-named :
    (task : SyncTask) (source target : Repo)
    → ref_spec (with_branches source target task) ≡ named_spec task source target
unfolding ref_spec with_branches
ref_spec-named task source target =
    rw (branch-first_text task.source_branch source, branch-first_text task.target_branch target)
      refl

module _ (E : Environment) (cfg : Config) (task : SyncTask) (source target : Repo) (run : SyncRun)
    (s : Exec E) where
  -- A run in a work directory that could be made, and none of whose calls has removed a directory
  -- before, keeps the directory where it succeeds, for the next run to fetch in, and where it
  -- fails removes it, once and last.
  pub work_dir_kept_on_success :
      (Environment.make_dirs E (temp_dir cfg task.key) s.world).0 ≡ none
      → total is_removal s.trace ≡ 0
      → let r = in_work_dir E cfg task source target run s in
        (r.0.1 ≡ none → total is_removal r.1.trace ≡ 0)
        × ((e : GoError)
            → r.0.1 ≡ some e
            → (before : List Call) × (r.1.trace ≡ dir_removed (temp_dir cfg task.key) ∷ before)
              × (total is_removal before ≡ 0))
  unfolding in_work_dir clean_up note
  work_dir_kept_on_success made none_before =
      let w = (Environment.make_dirs E (temp_dir cfg task.key) s.world).1 in
      let b = staged E cfg task source target run w s in
      let settled = staged-Settled E cfg task source target run w s in
      let calls =
        staged-total E cfg task source target (removal-Counts (with_branches source target task))
          run w s in
      rw (made, in_work_dir)
        (
          (λ e. omega (
            arith,
            ap (total is_removal) (clean_up_success E cfg (temp_dir cfg task.key) b settled e),
            calls,
            none_before,
          )),
          (λ x e. (
            b.1.trace,
            clean_up_failure E cfg (temp_dir cfg task.key) b x settled e,
            omega (arith, calls, none_before),
          )),
        )

  -- Every push of a run in a work directory has the one refspec
  -- `refs/heads/<source>:refs/heads/<target>`. The source branch is the task's, or else the default
  -- branch of the source repository, or else `main`; the target branch is the task's, or else the
  -- default branch of the target repository, or else `main`. Hypothesis: no call before the
  -- run is a push with another refspec.
  pub pushes_named_branches :
      total (is_astray (named_spec task source target)) s.trace ≡ 0
      → total
          (is_astray (named_spec task source target))
          (in_work_dir E cfg task source target run s).1.trace
        ≡ 0
  pushes_named_branches = rw (sym (ref_spec-named task source target)) (λ none_before. omega (
    arith,
    none_before,
    in_work_dir-total E cfg (is_astray (ref_spec (with_branches source target task))) 0 (λ d. refl)
        task source target run s (astray-Counts (with_branches source target task)),
  ))
