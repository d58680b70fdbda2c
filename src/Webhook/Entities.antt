-- ===== src/Webhook/Entities.antt =====
-- The rules and events of model/webhook_rule.go and model/webhook_event.go, without the columns that
-- the database layer maintains alone.
use git_sync_core.Prelude.{ℕ, Bool, String, Option, List, map}
use git_sync_core.Prelude.Int.{ℤ}

pub record WebhookRuleTask : Type 0 where
  pub rule_id : ℕ
  pub task_key : String

pub record WebhookRule : Type 0 where
  pub id : ℕ
  pub name : String
  pub repo_key : String
  pub event_type : String
  pub branch_pattern : String
  pub action : String
  -- in seconds
  pub min_interval : ℤ
  pub enabled : Bool
  pub description : String
  pub tasks : List WebhookRuleTask

-- `GetTaskKeys`
unfoldable pub get_task_keys : WebhookRule → List String
get_task_keys r = map (λ t. t.task_key) r.tasks

-- `SetTaskKeys`
unfoldable pub set_task_keys : WebhookRule → List String → WebhookRule
set_task_keys r keys = record r { tasks = map (λ k. record { rule_id = r.id; task_key = k }) keys }

pub record WebhookEvent : Type 0 where
  pub id : ℕ
  pub event_id : String
  pub repo_key : String
  pub event_type : String
  pub source : String
  pub actor_name : String
  pub branch : String
  pub commit_sha : String
  pub payload : List ℕ
  pub status : String
  pub error_message : String
  pub processed_at : Option ℕ

pub record UpdateRuleRequest : Type 0 where
  pub id : ℕ
  pub name : String
  pub event_type : String
  pub branch_pattern : String
  pub action : String
  -- none where the request has no list
  pub task_keys : Option (List String)
  pub min_interval : ℤ
  pub enabled : Bool
  pub description : String
