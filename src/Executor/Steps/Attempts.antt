-- ===== src/Executor/Steps/Attempts.antt =====
-- The loop of pushes of executor/executor.go: what its rounds do to the error and to the calls.
use git_sync_core.Prelude.{
  ℕ, zero, suc, ◌≤◌, ◌≡◌, refl, true, ltb, Option, none, some, ◌∷◌, Text, arith, inl, inr,
  Option-cases,
}
use git_sync_core.Model.Entities.{Repo, Platform, SyncTask}
use git_sync_core.Executor.Errors.{GoError}
use git_sync_core.Executor.Environment.{Environment, Exec, say, note, pushed}
use git_sync_core.Executor.Git.{push, push_options}
use git_sync_core.Executor.Steps.{back_off, fetch_again, before_push, push_loop, Round, is_some}

module _ (E : Environment) where
  pub push_calls :
      (deadline : ℕ) (dir : Text) (t : SyncTask) (repo : Repo) (p : Option Platform) (s : Exec E)
      → (push E deadline dir t repo p s).1.trace
        ≡ pushed (push_options E dir t repo p s.world) (push E deadline dir t repo p s).0 ∷ s.trace
  unfolding push note
  push_calls deadline dir t repo p s = refl

  back_off_calls :
      (deadline attempt max : ℕ) (o : Option GoError) (s : Exec E)
      → (back_off E deadline attempt max o s).2.trace ≡ s.trace
  unfolding back_off say
  back_off_calls deadline attempt max o s = ground arith

  back_off_error :
      (deadline attempt max : ℕ) (e : GoError) (s : Exec E)
      → is_some (back_off E deadline attempt max (some e) s).0 ≡ true
  unfolding back_off say
  back_off_error deadline attempt max e s = ground arith

  module _ (deadline : ℕ) (dir : Text) (task : SyncTask) (source target : Repo)
      (source_platform target_platform : Option Platform) (max : ℕ) where
    abbrev loop : ℕ → ℕ → Round E → Round E
    loop = push_loop E deadline dir task source target source_platform target_platform max

    -- A later round makes no push and ends the loop with an error.
    later_round :
        (left attempt rc : ℕ) (e : GoError) (s : Exec E)
        → ltb 1 attempt ≡ true
        → ((loop left attempt (some e, rc, s)).2.trace ≡ s.trace)
          × (is_some (loop left attempt (some e, rc, s)).0 ≡ true)
    unfolding push_loop before_push
    later_round zero attempt rc e s h = (refl, refl)
    later_round (suc left) attempt rc e s h = ground (
      arith,
      back_off_calls deadline attempt max (some e) s,
      back_off_error deadline attempt max e s,
    )

    later_retry :
        (left rc : ℕ) (e : GoError) (s : Exec E) → rc ≤ 1 → (loop left 2 (some e, rc, s)).1 ≤ 1
    unfolding push_loop before_push back_off
    later_retry zero rc e s h = h
    later_retry (suc left) rc e s h =
        ground (arith, back_off_error deadline 2 max e s, later_round (suc left) 2 rc e s refl)

    abbrev first_push : Exec E → Option GoError × Exec E
    first_push s = push E deadline dir task target target_platform s

    pub loop_pushed :
        (left rc : ℕ) (s : Exec E)
        → (first_push s).0 ≡ none
        → loop (suc left) 1 (none, rc, s) ≡ (none, rc, (first_push s).1)
    unfolding push_loop before_push
    loop_pushed left rc s h = ground arith

    pub loop_failed :
        (left rc : ℕ) (e : GoError) (s : Exec E)
        → (first_push s).0 ≡ some e
        → ((loop (suc left) 1 (none, rc, s)).2.trace
            ≡ (fetch_again E deadline dir task source target source_platform target_platform max 1
                (first_push s).1).trace)
          × (is_some (loop (suc left) 1 (none, rc, s)).0 ≡ true)
    unfolding push_loop before_push
    loop_failed left rc e s h = ground (
      arith,
      later_round left 2 rc e
          (fetch_again E deadline dir task source target source_platform target_platform max 1
            (first_push s).1)
          refl,
    )

    -- Whatever number of attempts is allowed, the loop ends with an error exactly where its first
    -- push does, and the number of retries that it leaves is at most one. So no later attempt turns
    -- a failed push into a successful one.
    pub first_push_decides :
        (left : ℕ) (s : Exec E)
        → (is_some
              (push_loop E deadline dir task source target source_platform target_platform max
                (suc left)
                1
                (none, 0, s)).0
            ≡ is_some (push E deadline dir task target target_platform s).0)
          × ((push_loop E deadline dir task source target source_platform target_platform max
                (suc left)
                1
                (none, 0, s)).1
              ≤ 1)
    unfolding push_loop before_push
    first_push_decides left s = elim (Option-cases (first_push s).0) [
      | inl e ↦ ground (arith, loop_pushed left 0 s e)
      | inr (x, e) ↦
          let s2 =
            fetch_again E deadline dir task source target source_platform target_platform max 1
              (first_push s).1 in
          ground (arith, loop_failed left 0 x s e, later_retry left 0 x s2)
    ]
