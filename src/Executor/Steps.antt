-- ===== src/Executor/Steps.antt =====
-- The step records of executor/executor.go and its loop of pushes.
pub mod Attempts
use git_sync_core.Prelude.{
  ℕ, zero, suc, ◌+◌, ◌-◌, ◌*◌, ◌==◌, ltb, Bool, true, false, ◌&&◌, String, Option, none, some, ◌∷◌,
  ◌++◌, [], Text, codes, decimal, if◌then◌else◌,
}
use git_sync_core.Model.Entities.{Repo, Platform, SyncTask, SyncRunStep}
use git_sync_core.Executor.Errors.{GoError, classify}
use git_sync_core.Executor.Environment.{Environment, Exec, say, note, step_begun, step_ended}
use git_sync_core.Executor.Git.{push, fetch_repo}

-- `RetryBackoffMs`
abbrev pub retry_backoff_ms : ℕ
retry_backoff_ms = 500

abbrev pub is_some {ℓ} : {A : Type ℓ} → Option A → Bool
is_some none = false
is_some (some a) = true

-- `fmt.Fprintf(&details, what+": %v\n", err)`
abbrev pub error_line : Text → GoError → Text
error_line what e = what ++ (e.message ++ (10 ∷ []))

module _ (E : Environment) where
  -- `beginStep`
  unfoldable pub begin_step : (run_id : ℕ) → String → Exec E → SyncRunStep × Exec E
  begin_step run_id name s =
      let step : SyncRunStep = record {
        id = 0;
        run_id = run_id;
        step_name = name;
        status = "running";
        start_time = Environment.now E s.world;
        end_time = none;
        duration_ms = 0;
        error_msg = [];
        error_type = "";
        output = [];
        retry_count = 0;
      } in
      let (id, w) = Environment.create_run_step E step s.world in
      let stored : SyncRunStep = record step { id = id } in (stored, note E (step_begun stored) w s)

  abbrev end_step : SyncRunStep → Exec E → Exec E
  end_step step s = note E (step_ended step) (Environment.update_run_step E step s.world) s

  -- `completeStep`
  unfoldable pub complete_step : SyncRunStep → Text → Exec E → Exec E
  complete_step step output s =
      let now = Environment.now E s.world in
      end_step
        (record step {
          end_time = some now;
          duration_ms = now - step.start_time;
          status = "success";
          output = output;
        })
        s

  -- `failStep`
  unfoldable pub fail_step : SyncRunStep → GoError → Exec E → Exec E
  fail_step step e s =
      let now = Environment.now E s.world in
      end_step
        (record step {
          end_time = some now;
          duration_ms = now - step.start_time;
          status = "failed";
          error_msg = e.message;
          error_type = classify (some e);
        })
        s

  -- The values that the body of the loop assigns: `pushErr`, `step3.RetryCount` and the state.
  abbrev pub Round : Type 0
  Round = Option GoError × ℕ × Exec E

  -- The wait before a second or later attempt. `pushErr` is assigned only where the context has
  -- ended, and keeps the error of the attempt before where the time has passed.
  unfoldable pub back_off : ℕ → (attempt max : ℕ) → Option GoError → Exec E → Round
  back_off deadline attempt max push_err s =
      let s1 =
        say E
          (codes "\nRetry attempt " ++ (decimal attempt ++ (b'/' ∷ (decimal max ++ codes "...\n"))))
          s in
      let (ended, w) = Environment.wait E deadline (attempt * retry_backoff_ms) s1.world in
      elim ended [
        | none ↦ (push_err, attempt - 1, record s1 { world = w })
        | some e ↦ (
          some e,
          attempt - 1,
          say E (error_line (codes "retry aborted (context done): ") e) (record s1 { world = w }),
        )
      ]

  module _ (deadline : ℕ) (dir : Text) (task : SyncTask) (source target : Repo)
      (source_platform target_platform : Option Platform) (max : ℕ) where
    -- What follows a failed push: the source is fetched again unless no attempt is left.
    unfoldable pub fetch_again : (attempt : ℕ) → Exec E → Exec E
    fetch_again attempt s =
        if ltb attempt max
        then (let (err, s1) =
              fetch_repo E deadline dir task source source_platform
                (say E (codes "Push failed, retrying fetch...\n") s) in
            elim err [
              | none ↦ s1
              | some e ↦ say E (error_line (codes "Retry fetch failed: ") e) s1
            ])
        else s

    -- The part of the body before the push.
    unfoldable pub before_push : (attempt : ℕ) → Round → Round
    before_push attempt (push_err, retry_count, s) =
        if ltb 1 attempt
        then back_off deadline attempt max push_err s
        else (push_err, retry_count, s)

    -- `for attempt := ...; attempt <= maxRetries; attempt++`, with the number of rounds left.
    unfoldable pub push_loop : (left attempt : ℕ) → Round → Round
    push_loop zero attempt r = r
    push_loop (suc left) attempt r =
        let (push_err, retry_count, s) = before_push attempt r in
        elim (ltb 1 attempt && is_some push_err) [
          | true ↦ (push_err, retry_count, s)
          | false ↦
              let (err, s1) = push E deadline dir task target target_platform s in
              elim err [
                | none ↦ (none, retry_count, s1)
                | some e ↦
                    push_loop left (attempt + 1) (some e, retry_count, fetch_again attempt s1)
              ]
        ]
