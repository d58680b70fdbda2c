-- ===== src/Executor/Environment.antt =====
-- What executor/executor.go calls and does not implement: the git backend, the operating system, the
-- clock, the deadline of a context, and the stores behind its interface `Service`. The world is
-- theirs. Their answers are whatever they are, so nothing is assumed of them. The calls that the
-- theorems speak of are kept, newest first, in a trace.
use git_sync_core.Prelude.{ℕ, Bool, String, Option, List, ◌∷◌, ◌++◌, Text}
use git_sync_core.Model.Entities.{Repo, Platform, SyncTask, SyncRun, SyncRunStep}
use git_sync_core.Executor.Errors.{GoError}

-- A result with an error in its place.
pub data Outcome {ℓ} (A : Type ℓ) : Type ℓ where
  done : A → Outcome A
  error : GoError → Outcome A

-- `NewTokenAuth(token)` or `AuthNone`, each with its field InsecureSkipTLS.
pub data AuthConfig : Type 0 where
  token_auth : Text → Bool → AuthConfig
  no_auth : Bool → AuthConfig

pub record CloneOptions : Type 0 where
  pub url : Text
  pub path : Text
  pub branch : Text
  pub single_branch : Bool
  pub auth : AuthConfig

pub record FetchOptions : Type 0 where
  pub repo_path : Text
  pub remote : Text
  pub branches : List Text
  pub tags : Bool
  pub prune : Bool
  pub auth : AuthConfig

pub record PushOptions : Type 0 where
  pub repo_path : Text
  pub remote : Text
  pub ref_specs : List Text
  pub force : Bool
  pub auth : AuthConfig

-- The first number of a git call is the deadline of its context.
pub record Environment : Type 1 where
  pub World : Type 0
  pub now : World → ℕ
  -- `Format(time.RFC3339)`
  pub format_time : ℕ → Text
  pub make_dirs : Text → World → Option GoError × World
  pub remove_all : Text → World → Option GoError × World
  -- `os.Stat` with an error other than that the path does not exist counts as existing
  pub exists : Text → World → Bool
  -- waiting for a time or for the end of the context, whose error is given
  pub wait : ℕ → ℕ → World → Option GoError × World
  pub git_clone : ℕ → CloneOptions → World → Option GoError × World
  pub git_fetch : ℕ → FetchOptions → World → Option GoError × World
  pub git_push : ℕ → PushOptions → World → Option GoError × World
  -- a text is also returned with an error
  pub git_current_branch : ℕ → Text → World → Text × Option GoError
  pub git_checkout : ℕ → Text → Text → World → Option GoError × World
  pub git_remotes : ℕ → Text → World → Outcome (List Text)
  pub git_remote_url : ℕ → Text → Text → World → Outcome Text
  pub git_remove_remote : ℕ → Text → Text → World → Option GoError × World
  pub git_add_remote : ℕ → Text → Text → Text → World → Option GoError × World
  pub create_run : SyncTask → String → Option ℕ → World → Outcome SyncRun × World
  -- an error is only logged; the identifier is the one that the store fills in
  pub create_run_step : SyncRunStep → World → ℕ × World
  pub update_run_step : SyncRunStep → World → World
  pub complete_run_with_task_update : SyncRun → SyncTask → World → World
  pub get_repo_by_key : String → World → Outcome (Option Repo)
  pub get_platform_by_id : ℕ → World → Outcome (Option Platform)

pub data Call : Type 0 where
  cloned : CloneOptions → Call
  fetched : FetchOptions → Call
  pushed : PushOptions → Option GoError → Call
  step_begun : SyncRunStep → Call
  step_ended : SyncRunStep → Call
  dir_removed : Text → Call
  completed : SyncRun → SyncTask → Call

module _ (E : Environment) where
  -- The state of one `Execute`: the world, the calls so far and the text of the details.
  pub record Exec : Type 0 where
    pub world : Environment.World E
    pub trace : List Call
    pub details : Text

  unfoldable pub say : Text → Exec → Exec
  say t s = record s { details = s.details ++ t }

  unfoldable pub note : Call → Environment.World E → Exec → Exec
  note c w s = record s { world = w; trace = c ∷ s.trace }
