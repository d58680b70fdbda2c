-- ===== src/Channel/Entities.antt =====
-- The records of model/mirror_channel.go, without the columns that the database layer maintains alone.
-- The JSON columns are kept as the values that they encode; a text that is measured is in bytes.
use git_sync_core.Prelude.{ℕ, Bool, String, Option, List, Text}

pub record MirrorTarget : Type 0 where
  pub id : ℕ
  pub channel_id : ℕ
  pub remote : Text
  pub repo_url : Text
  pub target_module : Text
  pub cred_type : String
  pub credential : Text
  pub username : Text

pub record MirrorChannel : Type 0 where
  pub id : ℕ
  pub name : Text
  pub mode : String
  pub repo_key : String
  -- called `module` there
  pub module_path : Text

pub record MirrorStep : Type 0 where
  pub name : Text
  pub status : String
  pub detail : List ℕ

pub record TagStatus : Type 0 where
  pub tag : Text
  pub status : String
  pub detail : List ℕ
  pub commit : String
  pub tree : String

pub record MirrorRun : Type 0 where
  pub id : ℕ
  pub channel_id : ℕ
  pub target_id : ℕ
  pub kind : String
  pub tags : Text
  pub status : String
  -- the value is none where the column holds no JSON object
  pub tag_statuses : Option (List TagStatus)
  pub steps : List MirrorStep
  pub error : Text
  pub allow_overwrite : Bool
  pub started_at : Option ℕ
  pub finished_at : Option ℕ
  pub duration_ms : ℕ
