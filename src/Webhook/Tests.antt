-- ===== src/Webhook/Tests.antt =====
-- Deliveries of a webhook, and the theorems at them.
use git_sync_core.Prelude.{
  insert, length, ℕ, ◌+◌, ◌≡◌, ◌≤◌, refl, Bool, true, String, Option, none, some, List, [], ◌∷◌,
  if◌then◌else◌, lookup, codes, arith,
}
use git_sync_core.Prelude.Int.{pos}
use git_sync_core.Executor.Errors.{new_error}
use git_sync_core.Webhook.Entities.{get_task_keys, WebhookRule, WebhookEvent}
use git_sync_core.Webhook.Rules.{
  Triggers, trigger_key, apply_task, apply_tasks, applies, fire, apply_rules, interval_ns,
  forget_old,
}
use git_sync_core.Webhook.Triggers.{
  spaced, starts_are_spaced, started, handled, cleaning_forgets_interval, remembering,
}
use git_sync_core.Webhook.Events.{
  Inbox, has_event_id, Insertion, inserts, fails, Answers, ParsedEvent, Checked, fresh,
  received_event,
}
use git_sync_core.Webhook.Delivery.{deliver, times_in, started_exactly_once}

abbrev pushed_event : ParsedEvent
pushed_event = record {
  id = "d-1";
  kind = "push";
  source = "github";
  actor = some "ann";
  branch = "main";
  commit_sha = "c0ffee";
  raw_payload = [];
}

abbrev valid_request : Answers
valid_request = record {
  repo_error = none;
  signature_error = none;
  parse_error = none;
  find_error = none;
  event = pushed_event;
}

abbrev empty : Inbox
empty = record { events = []; spawned = [] }

-- Two requests that both searched before either of them inserted, and a third whose insertion fails.
abbrev racing : List (Insertion × Checked)
racing =
    (fails (new_error (codes "database is locked")), fresh (received_event "r" pushed_event))
    ∷ ((inserts, fresh (received_event "r" pushed_event))
        ∷ ((inserts, fresh (received_event "r" pushed_event)) ∷ []))

started_exactly_once_example :
    times_in "d-1" (deliver racing (record { events = []; spawned = [] })).spawned ≡ (
      if has_event_id "d-1" (deliver racing (record { events = []; spawned = [] })).events
      then 1
      else 0)
started_exactly_once_example = started_exactly_once racing "d-1"

abbrev stored : WebhookEvent
stored = record (received_event "r" pushed_event) { id = 4 }

abbrev nightly : WebhookRule
nightly = record {
  id = 1;
  name = "nightly";
  repo_key = "r";
  event_type = "push";
  branch_pattern = "*";
  action = "sync";
  min_interval = pos 7200;
  enabled = true;
  description = "";
  tasks = record { rule_id = 1; task_key = "t" } ∷ [];
}

-- A world is its clock, and a task takes two seconds.
abbrev clock : ℕ → ℕ
clock w = w

abbrev two_seconds : String → Option ℕ → ℕ → ℕ
two_seconds task event w = w + 2000000000

abbrev always : String → String → Bool
always pattern t = true

abbrev once_handled : Triggers ℕ clock two_seconds
once_handled =
    apply_rules ℕ clock two_seconds always (nightly ∷ []) stored
      (record { world = 5000000000; times = []; fired = [] })

later : (task : String) (event : Option ℕ) (w : ℕ) → w ≤ w + 2000000000
later task event w = omega arith

nightly_interval :
    (task : String)
    → trigger_key nightly task ≡ "r:t"
    → 3600000000000 ≤ interval_ns nightly.min_interval
unfolding interval_ns
nightly_interval task h = omega arith

starts_are_spaced_example :
    spaced 3600000000000 "r:t"
      (apply_rules ℕ clock two_seconds always (nightly ∷ []) stored once_handled).fired
    ≡ true
starts_are_spaced_example =
    starts_are_spaced always ℕ clock two_seconds later "r:t" 3600000000000 (omega arith)
      (omega arith)
      (handled (nightly ∷ []) stored (nightly_interval, tt)
        (handled (nightly ∷ []) stored (nightly_interval, tt) (started 5000000000)))

-- The product wraps around: an interval of 10^10 seconds is negative, and the task is started twice.
abbrev wrapped : WebhookRule
wrapped = record nightly { min_interval = pos 10000000000 }

both_are_started :
    length
      (apply_rules ℕ clock two_seconds always (wrapped ∷ []) stored (
        apply_rules ℕ clock two_seconds always
          (wrapped ∷ [])
          stored
          (record { world = 5000000000; times = []; fired = [] }))).fired
    ≡ 2
unfolding apply_rules applies apply_tasks apply_task fire get_task_keys interval_ns lookup insert
    trigger_key
both_are_started = refl

cleaning_forgets_interval_example :
    ((apply_task ℕ clock two_seconds nightly (some 4) "t" (
        remembering ℕ clock two_seconds 4000000000000 ((trigger_key nightly "t", 0) ∷ []) [])).fired
      ≡ [])
    × ((apply_task ℕ clock two_seconds nightly (some 4) "t" (
          remembering ℕ clock two_seconds 4000000000000
            (forget_old (clock 4000000000000) ((trigger_key nightly "t", 0) ∷ []))
            [])).fired
        ≡ record { key = trigger_key nightly "t"; task = "t"; at = clock 4000000000000 } ∷ [])
unfolding lookup interval_ns
cleaning_forgets_interval_example =
    cleaning_forgets_interval ℕ clock two_seconds nightly "t" (some 4) 4000000000000 0 [] [] refl
      refl (omega arith) (omega arith)
