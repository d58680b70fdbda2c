-- ===== src/Executor/Run/Tests.antt =====
-- Runs of `Execute` in an environment whose clock ticks with each call.
use git_sync_core.Prelude.{
  is_empty, same, codes, ℕ, suc, ◌+◌, ◌≤◌, ◌≡◌, refl, true, false, none, some, Option, codes,
  String, List, [], ◌∷◌, if◌then◌else◌, Bool, ◌=ˢ◌,
}
use git_sync_core.Prelude.Int.{pos}
use git_sync_core.Model.Config.{Config}
use git_sync_core.Model.Entities.{Repo, SyncTask, SyncRun}
use git_sync_core.Executor.Errors.{GoError, new_error}
use git_sync_core.Executor.Environment.{Environment, Exec, Call, done, completed, dir_removed}
use git_sync_core.Executor.Git.{push}
use git_sync_core.Executor.Steps.{push_loop, is_some}
use git_sync_core.Executor.Steps.Attempts.{first_push_decides}
use git_sync_core.Executor.Run.{
  Ended, complete, find_source, execute, in_work_dir, temp_dir, run_header,
}
use git_sync_core.Executor.Run.Calls.{total}
use git_sync_core.Executor.Run.Settling.{Settled}
use git_sync_core.Executor.Run.Traces.{is_completion, is_removal, is_astray}
use git_sync_core.Executor.Paths.{
  split_slash, step_up, clean_elements, slashed, without_first, clean, join_path,
}
use git_sync_core.Executor.Run.Whole.{
  completed_once, work_dir_kept_on_success, pushes_named_branches, named_spec,
}

abbrev source_repo : Repo
source_repo = record {
  id = 1;
  key = "src";
  name = codes "a";
  platform_id = 0;
  platform = "github";
  platform_owner = [];
  platform_repo = [];
  clone_url = codes "https://a/x.git";
  ssh_url = [];
  default_branch = codes "trunk";
  access_token = codes "t";
  webhook_secret = [];
  webhook_id = 0;
  status = "active";
}

abbrev target_repo : Repo
target_repo = record source_repo { id = 2; key = "dst"; default_branch = [] }

abbrev sync_task : SyncTask
sync_task = record {
  id = 7;
  key = "k";
  name = codes "nightly";
  source_repo_key = "src";
  source_branch = [];
  target_repo_key = "dst";
  target_branch = [];
  sync_mode = codes "single";
  cron = [];
  webhook_token = "w";
  enabled = true;
  git_tags = false;
  git_force = false;
  git_prune = false;
  last_run_at = none;
  last_status = "";
}

abbrev new_run : SyncTask → String → Option ℕ → ℕ → SyncRun
new_run task trigger event now = record {
  id = 9;
  task_key = task.key;
  trigger_source = trigger;
  status = "running";
  start_time = now;
  end_time = none;
  details = [];
  error_message = [];
  webhook_event_id = event;
  duration_ms = 0;
  error_type = "";
  retry_total = 0;
}

-- The remote refuses every push where the Boolean is false.
abbrev ticking : Bool → Environment
ticking accepts = record {
  World = ℕ;
  now = λ w. w;
  format_time = λ t. codes "noon";
  make_dirs = λ d w. (none, suc w);
  remove_all = λ d w. (none, suc w);
  exists = λ d w. false;
  wait = λ deadline t w. (none, w + t);
  git_clone = λ deadline o w. (none, suc w);
  git_fetch = λ deadline o w. (none, suc w);
  git_push =
      λ deadline o w. ((if accepts then none else some (new_error (codes "rejected"))), suc w);
  git_current_branch = λ deadline d w. (codes "trunk", none);
  git_checkout = λ deadline d b w. (none, suc w);
  git_remotes = λ deadline d w. done [];
  git_remote_url = λ deadline d n w. done [];
  git_remove_remote = λ deadline d n w. (none, suc w);
  git_add_remote = λ deadline d n u w. (none, suc w);
  create_run = λ t trigger event w. (done (new_run t trigger event w), suc w);
  create_run_step = λ step w. (w, suc w);
  update_run_step = λ step w. suc w;
  complete_run_with_task_update = λ r t w. suc w;
  get_repo_by_key = λ k w. done (some (if k =ˢ "src" then source_repo else target_repo));
  get_platform_by_id = λ i w. done none;
}

abbrev settings : Config
settings = record {
  server = record { host = ""; port = pos 0; mode = "" };
  database = record {
    driver = "sqlite";
    dsn = "x";
    max_idle_conns = pos 0;
    max_open_conns = pos 0;
    conn_max_life_sec = pos 0;
    conn_max_idle_sec = pos 0;
  };
  redis = record {
    addr = "";
    password = "";
    db = pos 0;
    pool_size = pos 0;
    min_idle_conns = pos 0;
    dial_timeout_sec = pos 0;
    read_timeout_sec = pos 0;
    write_timeout_sec = pos 0;
  };
  git = record { backend = ""; temp_dir = "/tmp" };
  sync = record { max_concurrent = pos 5; default_timeout = pos 300; retry_count = pos 4 };
  webhook = record { rate_limit = pos 0; max_body_size = pos 0 };
  log = record { level = ""; format = "" };
}

-- What `Execute` ends with in such an environment, started at time 10.
abbrev ended : (accepts : Bool) → Ended (ticking accepts) settings
ended accepts = complete (ticking accepts) settings sync_task 11 (
    find_source (ticking accepts) settings sync_task (new_run sync_task "manual" none 10) (record {
      world = 11;
      trace = [];
      details = run_header (ticking accepts) settings sync_task "manual" 11;
    }))

runs :
    (accepts : Bool)
    → execute (ticking accepts) settings sync_task "manual" none 10 ≡ done (ended accepts)
unfolding execute
runs accepts = refl

completed_once_example :
    Settled (ended true).0.0 (ended true).0.1
    × ((before : List Call) × ((ended true).1.trace ≡ completed (ended true).0.0 sync_task ∷ before)
        × (total is_completion before ≡ 0))
completed_once_example =
    completed_once (ticking true) settings sync_task "manual" none 10 (ended true) (runs true)

abbrev start : (accepts : Bool) → Exec (ticking accepts)
start accepts = record { world = 10; trace = []; details = [] }

abbrev worked : (accepts : Bool) → Ended (ticking accepts) settings
worked accepts =
    in_work_dir (ticking accepts) settings sync_task source_repo target_repo
      (new_run sync_task "cron" none 10) (start accepts)

work_dir_kept_on_success_example :
    ((worked false).0.1 ≡ none → total is_removal (worked false).1.trace ≡ 0)
    × ((e : GoError)
        → (worked false).0.1 ≡ some e
        → (before : List Call) × ((worked false).1.trace
            ≡ dir_removed (temp_dir settings sync_task.key) ∷ before)
          × (total is_removal before ≡ 0))
unfolding total
work_dir_kept_on_success_example =
    work_dir_kept_on_success (ticking false) settings sync_task source_repo target_repo
      (new_run sync_task "cron" none 10) (start false) refl refl

-- Joining cleans the path.
joined_is_clean :
    (join_path (codes "/tmp//a/../b/") (codes "k") ≡ codes "/tmp/b/k")
    × (join_path (codes "./x") (codes "../../k") ≡ codes "../k")
unfolding join_path clean slashed clean_elements step_up split_slash without_first is_empty same
joined_is_clean = (refl, refl)

pushes_named_branches_example :
    total (is_astray (named_spec sync_task source_repo target_repo)) (worked true).1.trace ≡ 0
unfolding total
pushes_named_branches_example =
    pushes_named_branches (ticking true) settings sync_task source_repo target_repo
      (new_run sync_task "cron" none 10) (start true) refl

first_push_decides_example :
    (is_some
        (push_loop
          (ticking false)
          900
          (codes "/tmp/k/repo")
          sync_task
          source_repo
          target_repo
          none
          none
          4
          4
          1
          (none, 0, start false)).0
      ≡ is_some
          (push
            (ticking false)
            900
            (codes "/tmp/k/repo")
            sync_task
            target_repo
            none
            (start false)).0)
    × ((push_loop
          (ticking false)
          900
          (codes "/tmp/k/repo")
          sync_task
          source_repo
          target_repo
          none
          none
          4
          4
          1
          (none, 0, start false)).1
        ≤ 1)
first_push_decides_example =
    first_push_decides (ticking false) 900 (codes "/tmp/k/repo") sync_task source_repo target_repo
      none none 4 3 (start false)
