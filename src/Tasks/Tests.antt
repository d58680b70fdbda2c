-- ===== src/Tasks/Tests.antt =====
-- Triggers and edits of a task, and the theorems at them.
use git_sync_core.Prelude.{
  ℕ, suc, ◌≡◌, ◌<◌, ◌≤◌, refl, true, false, String, Option, none, some, [], ◌∷◌, codes, is_empty,
  same, lookup, insert,
}
use git_sync_core.Model.Entities.{SyncTask, SyncRun}
use git_sync_core.Executor.Errors.{GoError, new_error}
use git_sync_core.Guard.Local.{LocalGuard}
use git_sync_core.Tasks.{
  CreateTaskRequest, UpdateTaskRequest, create_task, update_task, is_valid_branch_name,
  task_not_found, add_cron_job, forget_job, unschedule,
}
use git_sync_core.Tasks.Runs.{
  Server, MayRun, task_disabled, run_task_with_trigger, run_task_async, trigger_respects_guard,
  runnable, run,
}
use git_sync_core.Tasks.Edits.{SafeBranches, edits_keep_branches_safe}

abbrev nightly : SyncTask
nightly = record {
  id = 1;
  key = "k";
  name = codes "nightly";
  source_repo_key = "a";
  source_branch = codes "main";
  target_repo_key = "b";
  target_branch = [];
  sync_mode = [];
  cron = codes "0 3 * * *";
  webhook_token = "w";
  enabled = true;
  git_tags = false;
  git_force = false;
  git_prune = false;
  last_run_at = none;
  last_status = "";
}

abbrev succeed : SyncTask → ℕ → Option GoError × ℕ
succeed task w = (none, suc w)

abbrev server : Server ℕ succeed
server = record {
  guard = record { running_tasks = []; sem = 1; limit = 2 };
  tasks = ("k", nightly) ∷ [];
  started = [];
  world = 0;
}

trigger_respects_guard_example :
    (MayRun ℕ succeed "k" server nightly
      → ((run_task_with_trigger ℕ succeed "k" server).1.started ≡ nightly.key ∷ server.started)
        × ((run_task_with_trigger ℕ succeed "k" server).1.guard.sem ≡ server.guard.sem)
        × ((j : String)
            → lookup j (run_task_with_trigger ℕ succeed "k" server).1.guard.running_tasks
              ≡ lookup j server.guard.running_tasks))
    × (lookup "k" server.tasks ≡ none
        → run_task_with_trigger ℕ succeed "k" server ≡ (some task_not_found, server))
    × (lookup "k" server.tasks ≡ some nightly
        → nightly.enabled ≡ false
        → run_task_with_trigger ℕ succeed "k" server ≡ (some task_disabled, server))
    × (lookup "k" server.tasks ≡ some nightly
        → nightly.enabled ≡ true
        → server.guard.limit ≤ server.guard.sem
        → run_task_with_trigger ℕ succeed "k" server
          ≡ (some (new_error (codes "too many concurrent sync tasks")), server))
    × (lookup "k" server.tasks ≡ some nightly
        → nightly.enabled ≡ true
        → server.guard.sem < server.guard.limit
        → lookup "k" server.guard.running_tasks ≡ some tt
        → run_task_with_trigger ℕ succeed "k" server
          ≡ (some (new_error (codes "task is already running")), server))
trigger_respects_guard_example = trigger_respects_guard ℕ succeed "k" server nightly

abbrev taken : LocalGuard
taken = record { running_tasks = ("k", tt) ∷ []; sem = 2; limit = 2 }

-- A run that is asked for asynchronously starts although the slots are all taken by runs of the task.
async_starts_all_the_same :
    (run_task_async ℕ succeed "k" (record server { guard = taken })).1.started
    ≡ nightly.key ∷ server.started
unfolding run_task_async runnable run lookup
async_starts_all_the_same = refl

no_tasks-SafeBranches : SafeBranches []
unfolding lookup
no_tasks-SafeBranches k t e = absurd (cc)

edits_keep_branches_safe_example :
    ((id : ℕ) (key token : String) (req : CreateTaskRequest)
      → SafeBranches (create_task id key token req []).1)
    × ((req : UpdateTaskRequest) → SafeBranches (update_task req []).1)
edits_keep_branches_safe_example = edits_keep_branches_safe [] no_tasks-SafeBranches

abbrev disable : UpdateTaskRequest
disable = record {
  key = "k";
  name = [];
  source_branch = [];
  target_branch = [];
  sync_mode = [];
  cron = [];
  enabled = some false;
  git_tags = none;
  git_force = none;
  git_prune = none;
}

abbrev finished : SyncRun
finished = record {
  id = 9;
  task_key = "k";
  trigger_source = "cron";
  status = "success";
  start_time = 5;
  end_time = some 8;
  details = [];
  error_message = [];
  webhook_event_id = none;
  duration_ms = 3;
  error_type = "";
  retry_total = 0;
}

-- A name with two dots in a row is valid, though the comment on the expression says that it is not.
double_dot_is_valid : is_valid_branch_name (codes "a..b") ≡ true
unfolding is_valid_branch_name is_empty same
double_dot_is_valid = refl

-- A job that is added twice is scheduled once, and removed as a whole.
rescheduled :
    (add_cron_job
      (some 2)
      "k"
      (add_cron_job (some 1) "k" (record { entry_ids = []; scheduled = [] })).1).1.scheduled
    ≡ (2, "k") ∷ []
unfolding add_cron_job forget_job unschedule lookup insert
rescheduled = refl
