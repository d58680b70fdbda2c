-- ===== src/Webhook/Rules.antt =====
-- `ApplyRules` and `UpdateRule` of service/webhook_service.go, and the pass of `cleanupTriggerTimes` of
-- service/cleanup.go. The SDK's branch filter, the start of a task and the clock are arguments.
use Prim.Native.String.{◌++◌}
use git_sync_core.Prelude.{
  ℕ, suc, ◌*◌, ◌-◌, ◌%◌, ◌^◌, ltb, Bool, true, false, ◌&&◌, String, Option, none, some, List, [],
  ◌∷◌, if◌then◌else◌, ◌=ˢ◌, Table, lookup, insert,
}
use git_sync_core.Prelude.Int.{ℤ, pos, negsuc}
use git_sync_core.Webhook.Entities.{
  WebhookRule, WebhookEvent, UpdateRuleRequest, get_task_keys, set_task_keys,
}

-- The text `new` where it is not empty, else `old`.
abbrev pub or_old : String → String → String
or_old new old = if new =ˢ "" then old else new

abbrev pub is_positive : ℤ → Bool
is_positive (pos (suc n)) = true
is_positive _ = false

abbrev pub keys_or_old : Option (List String) → WebhookRule → WebhookRule
keys_or_old none r = r
keys_or_old (some keys) r = set_task_keys r keys

-- The assignments of `UpdateRule` to the rule that it has found.
unfoldable pub update_rule : UpdateRuleRequest → WebhookRule → WebhookRule
update_rule req rule = record (keys_or_old req.task_keys rule) {
  name = or_old req.name rule.name;
  event_type = or_old req.event_type rule.event_type;
  branch_pattern = req.branch_pattern;
  action = or_old req.action rule.action;
  min_interval = if is_positive req.min_interval then req.min_interval else rule.min_interval;
  enabled = req.enabled;
  description = req.description;
}

-- `time.Duration(rule.MinInterval)*time.Second`, of 64 bits, in nanoseconds: the product wraps around.
-- A negative duration, which no time since a start is below, is 0.
unfoldable pub interval_ns : ℤ → ℕ
interval_ns (pos n) =
    let product = n * 1000000000 % 2 ^ 64 in if ltb product (2 ^ 63) then product else 0
interval_ns (negsuc n) = 0

-- `fmt.Sprintf("%s:%s", rule.RepoKey, taskKey)`
unfoldable pub trigger_key : WebhookRule → String → String
trigger_key rule task = rule.repo_key ++ (":" ++ task)

-- One start of a task, under the key that the map of trigger times has for it.
pub record Firing : Type 0 where
  pub key : String
  pub task : String
  pub at : ℕ

-- `Range` of one pass of `cleanupTriggerTimes`: entries older than an hour go.
unfoldable pub forget_old : ℕ → Table ℕ → Table ℕ
forget_old now [] = []
forget_old now ((k, t) ∷ m) =
    let rest = forget_old now m in if ltb 3600000000000 (now - t) then rest else (k, t) ∷ rest

-- Whether the last start is less than the interval ago.
abbrev pub is_recent : ℕ → ℕ → Option ℕ → Bool
is_recent interval time none = false
is_recent interval time (some t) = ltb (time - t) interval

module _ (World : Type 0) (now : World → ℕ) (run_task : String → Option ℕ → World → World) where
  -- `lastTriggerTime`, and the starts so far, newest first. An error of a task is only logged.
  pub record Triggers : Type 0 where
    pub world : World
    pub times : Table ℕ
    pub fired : List Firing

  -- `runTaskFn`
  unfoldable pub fire : WebhookRule → String → Option ℕ → Triggers → Triggers
  fire rule task event s = record s {
    world = run_task task event s.world;
    fired = record { key = trigger_key rule task; task = task; at = now s.world } ∷ s.fired;
  }

  -- The body of the loop over the tasks of a rule.
  unfoldable pub apply_task : WebhookRule → Option ℕ → String → Triggers → Triggers
  apply_task rule event task s =
      if task =ˢ ""
      then s
      else if is_positive rule.min_interval
      then if is_recent (interval_ns rule.min_interval) (now s.world)
          (lookup (trigger_key rule task) s.times)
        then s
        else fire rule task event
            (record s { times = insert (trigger_key rule task) (now s.world) s.times })
      else fire rule task event s

  unfoldable pub apply_tasks : WebhookRule → Option ℕ → List String → Triggers → Triggers
  apply_tasks rule event [] s = s
  apply_tasks rule event (k ∷ ks) s = apply_tasks rule event ks (apply_task rule event k s)

  module _ (matches : String → String → Bool) where
    -- The conditions under which a rule starts its tasks. The cache of filters changes no answer.
    unfoldable pub applies : WebhookRule → WebhookEvent → Bool
    applies rule event =
        rule.enabled
        && (matches rule.event_type event.event_type
            && (matches rule.branch_pattern event.branch && (rule.action =ˢ "sync")))

    -- `ApplyRules`, for the rules that are found; none where the search fails.
    unfoldable pub apply_rules : List WebhookRule → WebhookEvent → Triggers → Triggers
    apply_rules [] event s = s
    apply_rules (r ∷ rs) event s =
        apply_rules rs event
          (if applies r event then apply_tasks r (some event.id) (get_task_keys r) s else s)
