-- ===== src/Model/Entities.antt =====
-- The stored entities of model/repo.go, model/platform.go, model/sync_task.go, model/sync_run.go and
-- model/sync_run_step.go. Keys, states and kinds, which are only compared, are native texts; names
-- of branches, addresses, tokens and messages are lists of code points. Left out are the columns
-- that the database layer maintains alone and that no code of the program reads.
use git_sync_core.Prelude.{ℕ, Bool, String, Option, List, Text}

pub record Repo : Type 0 where
  pub id : ℕ
  pub key : String
  pub name : Text
  -- 0 where the repository has no platform
  pub platform_id : ℕ
  pub platform : String
  pub platform_owner : Text
  pub platform_repo : Text
  pub clone_url : Text
  pub ssh_url : Text
  pub default_branch : Text
  pub access_token : Text
  pub webhook_secret : Text
  pub webhook_id : ℕ
  pub status : String

pub record Platform : Type 0 where
  pub id : ℕ
  pub key : String
  pub name : Text
  pub kind : String
  pub instance_url : Text
  pub api_url : Text
  pub access_token : Text
  pub skip_tls_verify : Bool
  pub ca_cert_path : Text
  pub proxy_url : Text
  pub is_default : Bool
  pub status : String
  pub last_test_at : Option ℕ
  pub last_test_result : Text
  pub repo_count : ℕ

pub record SyncTask : Type 0 where
  pub id : ℕ
  pub key : String
  pub name : Text
  pub source_repo_key : String
  pub source_branch : Text
  pub target_repo_key : String
  pub target_branch : Text
  pub sync_mode : Text
  pub cron : Text
  pub webhook_token : String
  pub enabled : Bool
  pub git_tags : Bool
  pub git_force : Bool
  pub git_prune : Bool
  pub last_run_at : Option ℕ
  pub last_status : String

-- The steps of a run stand in a table of their own. `details` is counted in bytes.
pub record SyncRun : Type 0 where
  pub id : ℕ
  pub task_key : String
  pub trigger_source : String
  pub status : String
  pub start_time : ℕ
  pub end_time : Option ℕ
  pub details : List ℕ
  pub error_message : Text
  pub webhook_event_id : Option ℕ
  pub duration_ms : ℕ
  pub error_type : String
  pub retry_total : ℕ

pub record SyncRunStep : Type 0 where
  pub id : ℕ
  pub run_id : ℕ
  pub step_name : String
  pub status : String
  pub start_time : ℕ
  pub end_time : Option ℕ
  pub duration_ms : ℕ
  pub error_msg : Text
  pub error_type : String
  pub output : Text
  pub retry_count : ℕ
