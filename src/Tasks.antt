-- ===== src/Tasks.antt =====
-- service/task_service.go, service/task.go and service/cron.go: the tasks, the runs that are started for
-- them, and the registry of timed jobs. The table of tasks holds the rows that are not deleted, by key.
pub mod Runs
pub mod Edits
pub mod Tests
use git_sync_core.Prelude.{
  ℕ, zero, suc, ◌==◌, Bool, true, false, not, ◌&&◌, ◌||◌, String, Option, none, some, List, [], ◌∷◌,
  ◌++◌, Text, codes, is_empty, same, all, is_alnum, if◌then◌else◌, ◌=ˢ◌, Table, lookup, insert,
  remove,
}
use git_sync_core.Model.Entities.{SyncTask, SyncRun}
use git_sync_core.Executor.Errors.{GoError, new_error}
use git_sync_core.Executor.Environment.{Outcome, done, error}

-- A character of the expression `validBranchName`.
abbrev pub is_branch_char : ℕ → Bool
is_branch_char c = is_alnum c || ((c == b'.') || ((c == b'_') || ((c == b'/') || (c == b'-'))))

-- `validateBranchName`: whether it returns no error.
unfoldable pub is_valid_branch_name : Text → Bool
is_valid_branch_name branch =
    is_empty branch
    || (all is_branch_char branch
        && (not (same branch (codes ".")) && not (same branch (codes ".."))))

-- The error of `validateBranchName`, whose message is shortened to the name.
abbrev pub invalid_branch : Text → GoError
invalid_branch branch = new_error (codes "invalid branch name " ++ branch)

pub record CreateTaskRequest : Type 0 where
  pub name : Text
  pub source_repo_key : String
  pub source_branch : Text
  pub target_repo_key : String
  pub target_branch : Text
  pub sync_mode : Text
  pub cron : Text
  pub git_tags : Bool
  pub git_force : Bool
  pub git_prune : Bool

-- A Boolean that is none is not changed.
pub record UpdateTaskRequest : Type 0 where
  pub key : String
  pub name : Text
  pub source_branch : Text
  pub target_branch : Text
  pub sync_mode : Text
  pub cron : Text
  pub enabled : Option Bool
  pub git_tags : Option Bool
  pub git_force : Option Bool
  pub git_prune : Option Bool

-- The row that `CreateTask` inserts; the keys are random.
unfoldable pub new_task : (id : ℕ) → (key token : String) → CreateTaskRequest → SyncTask
new_task id key token req = record {
  id = id;
  key = key;
  name = req.name;
  source_repo_key = req.source_repo_key;
  source_branch = req.source_branch;
  target_repo_key = req.target_repo_key;
  target_branch = req.target_branch;
  sync_mode = req.sync_mode;
  cron = req.cron;
  webhook_token = token;
  enabled = true;
  git_tags = req.git_tags;
  git_force = req.git_force;
  git_prune = req.git_prune;
  last_run_at = none;
  last_status = "";
}

-- `CreateTask` of the task service
unfoldable pub create_task :
    (id : ℕ)
    → (key token : String) → CreateTaskRequest
    → Table SyncTask
    → Outcome SyncTask × Table SyncTask
create_task id key token req tasks =
    if not (is_valid_branch_name req.source_branch)
    then (error (invalid_branch req.source_branch), tasks)
    else if not (is_valid_branch_name req.target_branch)
    then (error (invalid_branch req.target_branch), tasks)
    else (done (new_task id key token req), insert key (new_task id key token req) tasks)

abbrev pub text_or : Text → Text → Text
text_or new old = if is_empty new then old else new

abbrev pub bool_or : Option Bool → Bool → Bool
bool_or none old = old
bool_or (some new) old = new

-- The assignments of `UpdateTask`.
unfoldable pub updated_task : UpdateTaskRequest → SyncTask → SyncTask
updated_task req task = record task {
  name = text_or req.name task.name;
  source_branch = text_or req.source_branch task.source_branch;
  target_branch = text_or req.target_branch task.target_branch;
  sync_mode = text_or req.sync_mode task.sync_mode;
  cron = text_or req.cron task.cron;
  enabled = bool_or req.enabled task.enabled;
  git_tags = bool_or req.git_tags task.git_tags;
  git_force = bool_or req.git_force task.git_force;
  git_prune = bool_or req.git_prune task.git_prune;
}

abbrev pub task_not_found : GoError
task_not_found = new_error (codes "task not found")

-- `UpdateTask` of the task service
unfoldable pub update_task : UpdateTaskRequest → Table SyncTask → Outcome SyncTask × Table SyncTask
update_task req tasks = elim (lookup req.key tasks) [
  | none ↦ (error task_not_found, tasks)
  | some task ↦
      if not (is_valid_branch_name req.source_branch)
      then (error (invalid_branch req.source_branch), tasks)
      else if not (is_valid_branch_name req.target_branch)
      then (error (invalid_branch req.target_branch), tasks)
      else (done (updated_task req task), insert req.key (updated_task req task) tasks)
]

-- `CompleteRunWithTaskUpdate`: the run and the task that the run was started with are saved whole.
unfoldable pub complete_run_with_task_update : SyncRun → SyncTask → Table SyncTask → Table SyncTask
complete_run_with_task_update run task tasks =
    insert task.key (record task { last_run_at = run.end_time; last_status = run.status }) tasks

-- The registry of timed jobs: the identifiers by task, and the jobs that the scheduler has.
pub record Jobs : Type 0 where
  pub entry_ids : Table ℕ
  pub scheduled : List (ℕ × String)

unfoldable pub unschedule : ℕ → List (ℕ × String) → List (ℕ × String)
unschedule id [] = []
unschedule id ((i, k) ∷ jobs) =
    let rest = unschedule id jobs in if i == id then rest else (i, k) ∷ rest

unfoldable pub forget_job : String → Jobs → Jobs
forget_job key j = elim (lookup key j.entry_ids) [
  | none ↦ j
  | some id ↦ record j { scheduled = unschedule id j.scheduled }
]

-- `addCronJob`: `id` is the scheduler's new identifier, none where it refuses the expression.
unfoldable pub add_cron_job : Option ℕ → String → Jobs → Option GoError × Jobs
add_cron_job none key j = (some (new_error (codes "invalid cron expression")), forget_job key j)
add_cron_job (some id) key j =
    let j1 = forget_job key j in
    (none, record { entry_ids = insert key id j1.entry_ids; scheduled = (id, key) ∷ j1.scheduled })

-- `removeCronJob`
unfoldable pub remove_cron_job : String → Jobs → Jobs
remove_cron_job key j =
    let j1 = forget_job key j in
    elim (lookup key j.entry_ids) [
      | none ↦ j
      | some id ↦ record j1 { entry_ids = remove key j1.entry_ids }
    ]
