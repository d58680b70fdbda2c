-- ===== src/Executor/Run/Traces.antt =====
-- What a run of `Execute` leaves behind.
use git_sync_core.Prelude.{
  ℕ, ◌+◌, ◌≤◌, ◌≡◌, refl, false, Option, none, some, Text, codes, arith, inl, inr, Option-cases, [],
  ◌∷◌, ◌*◌, same, if◌then◌else◌, ◌=ˢ◌, eq_iff,
}
use git_sync_core.Prelude.TextLaws.{same_self}
use git_sync_core.Model.Config.{Config}
use git_sync_core.Model.Entities.{Repo, SyncTask, SyncRun}
use git_sync_core.Executor.Errors.{GoError, wrap}
use git_sync_core.Executor.Paths.{join_path}
use git_sync_core.Executor.Environment.{
  Environment, Exec, note, Call, pushed, dir_removed, completed,
}
use git_sync_core.Executor.Git.{prefetch_platforms, ref_spec}
use git_sync_core.Executor.Run.{
  source_stage, Ended, positive_or, clean_up, in_work_dir, with_branches, temp_dir,
}
use git_sync_core.Executor.Run.Calls.{total, Counts}
use git_sync_core.Executor.Run.Stages.{source_stage-total}
use git_sync_core.Executor.Run.Settling.{
  Done, source_stage-Settled, clean_up-Settled, fail_run-Settled,
}

abbrev pub is_completion : Call → ℕ
is_completion (completed r t) = 1
is_completion _ = 0

abbrev pub is_removal : Call → ℕ
is_removal (dir_removed d) = 1
is_removal _ = 0

-- A push with another refspec than the one given.
abbrev pub is_astray : Text → Call → ℕ
is_astray spec (pushed o e) = elim o.ref_specs [
  | [] ↦ 1
  | r ∷ rest ↦ elim rest [ [] ↦ if same r spec then 0 else 1 | _ ↦ 1 ]
]
is_astray spec _ = 0

pub completion-Counts : (task : SyncTask) → Counts is_completion task 0
completion-Counts task = record {
  clones = λ o. refl;
  fetches = λ o. refl;
  begins = λ s. refl;
  ends = λ s. refl;
  pushes = λ o e h. omega arith;
}

pub removal-Counts : (task : SyncTask) → Counts is_removal task 0
removal-Counts task = record {
  clones = λ o. refl;
  fetches = λ o. refl;
  begins = λ s. refl;
  ends = λ s. refl;
  pushes = λ o e h. omega arith;
}

pub astray-Counts : (task : SyncTask) → Counts (is_astray (ref_spec task)) task 0
astray-Counts task = record {
  clones = λ o. refl;
  fetches = λ o. refl;
  begins = λ s. refl;
  ends = λ s. refl;
  pushes = λ o e h. rw h (ground (arith, same_self (ref_spec task)));
}

pub clean_up-total :
    (E : Environment) (cfg : Config) (weight : Call → ℕ) (dir : Text) (r : Ended E cfg)
    → ((d : Text) → weight (dir_removed d) ≡ 0)
    → total weight (clean_up E cfg dir r).1.trace ≡ total weight r.1.trace
unfolding clean_up note total
clean_up-total E cfg weight dir r h = ground (arith, h dir)

module _ (E : Environment) (cfg : Config) (dir : Text) where
  pub clean_up_success :
      (b : Ended E cfg)
      → Done E cfg b
      → (clean_up E cfg dir b).0.1 ≡ none
      → (clean_up E cfg dir b).1.trace ≡ b.1.trace
  unfolding clean_up note
  clean_up_success ((run, none), s) h e = ground (arith, eq_iff run.status "success")
  clean_up_success ((run, some x), s) h e = absurd (ground arith)

  pub clean_up_failure :
      (b : Ended E cfg) (x : GoError)
      → Done E cfg b
      → (clean_up E cfg dir b).0.1 ≡ some x
      → (clean_up E cfg dir b).1.trace ≡ dir_removed dir ∷ b.1.trace
  unfolding clean_up note
  clean_up_failure ((run, none), s) x h e = absurd (ground arith)
  clean_up_failure ((run, some y), s) x (h, _, _) e =
      let t : (run.status =ˢ "success") ≡ false = rw h refl in rw (t, clean_up) refl

module _ (E : Environment) (cfg : Config) where
  -- The part of `in_work_dir` that runs in the directory.
  abbrev pub staged : SyncTask → Repo → Repo → SyncRun → Environment.World E → Exec E → Ended E cfg
  staged task source target run w s =
      source_stage E cfg (Environment.now E w + positive_or 300 cfg.sync.default_timeout * 1000)
        (join_path (temp_dir cfg task.key) (codes "repo")) (with_branches source target task) source
        target (prefetch_platforms E s.world source target) run (record s { world = w })

  abbrev pub made : SyncTask → Exec E → Option GoError × Environment.World E
  made task s = Environment.make_dirs E (temp_dir cfg task.key) s.world

  pub staged-Settled :
      (task : SyncTask) (source target : Repo) (run : SyncRun) (w : Environment.World E)
      (s : Exec E)
      → Done E cfg (staged task source target run w s)
  staged-Settled task source target run w s =
      source_stage-Settled E cfg
        (Environment.now E w + positive_or 300 cfg.sync.default_timeout * 1000)
        (join_path (temp_dir cfg task.key) (codes "repo")) (with_branches source target task) source
        target (prefetch_platforms E s.world source target) run (record s { world = w })

  pub staged-total :
      {weight : Call → ℕ} {top : ℕ} (task : SyncTask) (source target : Repo)
      → Counts weight (with_branches source target task) top
      → (run : SyncRun) (w : Environment.World E) (s : Exec E)
      → total weight (staged task source target run w s).1.trace ≤ top + total weight s.trace
  staged-total task source target C run w s =
      source_stage-total E cfg C
        (Environment.now E w + positive_or 300 cfg.sync.default_timeout * 1000)
        (join_path (temp_dir cfg task.key) (codes "repo")) source target
        (prefetch_platforms E s.world source target) run (record s { world = w })

  pub in_work_dir-Settled :
      (task : SyncTask) (source target : Repo) (run : SyncRun) (s : Exec E)
      → Done E cfg (in_work_dir E cfg task source target run s)
  unfolding in_work_dir
  in_work_dir-Settled task source target run s = elim (Option-cases (made task s).0) [
    | inl e ↦
        rw (e, in_work_dir)
          (clean_up-Settled E cfg (temp_dir cfg task.key)
            (staged task source target run (made task s).1 s)
            (staged-Settled task source target run (made task s).1 s))
    | inr (x, e) ↦
        rw (e, in_work_dir) (fail_run-Settled E cfg run (wrap (codes "create work dir failed") x))
  ]

  module _ (weight : Call → ℕ) (top : ℕ) (kept : (d : Text) → weight (dir_removed d) ≡ 0) where
    pub in_work_dir-total :
        (task : SyncTask) (source target : Repo) (run : SyncRun) (s : Exec E)
        → Counts weight (with_branches source target task) top
        → total weight (in_work_dir E cfg task source target run s).1.trace
          ≤ top + total weight s.trace
    unfolding in_work_dir
    in_work_dir-total task source target run s C = elim (Option-cases (made task s).0) [
      | inl e ↦
          rw (e, in_work_dir)
            (omega (
              arith,
              clean_up-total E cfg weight (temp_dir cfg task.key)
                  (staged task source target run (made task s).1 s) kept,
              staged-total task source target C run (made task s).1 s,
            ))
      | inr (x, e) ↦ rw (e, in_work_dir) (omega arith)
    ]
