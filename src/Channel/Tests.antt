-- ===== src/Channel/Tests.antt =====
-- Targets and rows of a channel, and the theorems at them.
use git_sync_core.Prelude.{◌≡◌, refl, false, some, [], ◌∷◌, ◌++◌, Text, codes, is_empty, has_prefix}
use git_sync_core.Executor.Errors.{new_error}
use git_sync_core.Executor.Environment.{Outcome, done, error}
use git_sync_core.Channel.Entities.{MirrorTarget, MirrorRun, TagStatus}
use git_sync_core.Channel.Tags.{trim_space, trim_space_left, trim_space_right, is_space}
use git_sync_core.Channel.Targets.{
  TargetInput, basic_auth, checked_cred_type, validate_target_input, stored_credential,
  with_credential, updated_target, target_auth,
}
use git_sync_core.Channel.Targets.Checks.{Checked, updated_target-Checked}
use git_sync_core.Channel.Versions.{Cell, cell_at, merge_runs}
use git_sync_core.Channel.Versions.Merging.{oldest_run_is_shown}

abbrev github : MirrorTarget
github = record {
  id = 5;
  channel_id = 3;
  remote = codes "github";
  repo_url = codes "https://g/x";
  target_module = codes "g/x";
  cred_type = "token";
  credential = codes "old";
  username = [];
}

abbrev renamed : TargetInput
renamed = record {
  remote = codes "hub";
  repo_url = codes "https://g/y";
  target_module = codes "g/y";
  cred_type = "token";
  credential = codes "new";
  username = [];
}

-- A stand-in for the encryption.
abbrev seal : Text → Outcome Text
seal t = done (b'#' ∷ t)

abbrev saved : MirrorTarget
saved = record github {
  remote = codes "hub";
  repo_url = codes "https://g/y";
  target_module = codes "g/y";
  credential = codes "#new";
}

saved_target : updated_target seal renamed github ≡ done saved
unfolding updated_target validate_target_input checked_cred_type with_credential stored_credential
    trim_space trim_space_left trim_space_right is_space is_empty has_prefix
saved_target = refl

updated_target-Checked_example : Checked seal github.credential renamed.credential saved
updated_target-Checked_example = updated_target-Checked seal renamed github saved saved_target

-- An empty credential, which is to keep the stored one, is refused for a target with a token.
kept_token :
    updated_target seal (record renamed { credential = [] }) github
    ≡ error (new_error (codes "凭据类型 token 需要提供凭据内容"))
unfolding updated_target validate_target_input checked_cred_type with_credential stored_credential
    trim_space trim_space_left trim_space_right is_space is_empty has_prefix
kept_token = refl

default_user : target_auth seal github ≡ done (basic_auth (codes "oauth2") (codes "#old"))
unfolding target_auth is_empty
default_user = refl

abbrev published : TagStatus
published = record { tag = codes "v1"; status = "success"; detail = []; commit = "c2"; tree = "t2" }

abbrev failed_first : TagStatus
failed_first = record { tag = codes "v1"; status = "failed"; detail = []; commit = ""; tree = "" }

abbrev newest : MirrorRun
newest = record {
  id = 2;
  channel_id = 3;
  target_id = 5;
  kind = "publish";
  tags = codes "v1";
  status = "success";
  tag_statuses = some (published ∷ []);
  steps = [];
  error = [];
  allow_overwrite = false;
  started_at = some 20;
  finished_at = some 21;
  duration_ms = 1;
}

abbrev oldest : MirrorRun
oldest = record newest {
  id = 1;
  status = "failed";
  tag_statuses = some (failed_first ∷ []);
  started_at = some 10;
  finished_at = some 11;
}

oldest_run_is_shown_example :
    (c : Cell) × (cell_at failed_first.tag oldest.target_id
        (merge_runs ((newest ∷ []) ++ (oldest ∷ [])) [])
      ≡ some c)
    × (c.state ≡ failed_first.status)
    × (c.executed_at ≡ oldest.started_at)
    × (c.commit ≡ failed_first.commit)
    × (c.tree ≡ failed_first.tree)
oldest_run_is_shown_example = oldest_run_is_shown (newest ∷ []) oldest failed_first refl refl
