-- ===== src/Channel/Targets.antt =====
-- The targets of a channel in service/mirror_service.go: what is checked, stored and handed to git. The
-- encryption of credentials is an argument. A quoted text of a message is not escaped here.
pub mod Checks
use git_sync_core.Prelude.{
  ℕ, ◌==◌, Bool, true, false, not, ◌&&◌, ◌||◌, String, Option, none, some, List, [], ◌∷◌, ◌++◌,
  Text, codes, is_empty, same, has_prefix, if◌then◌else◌, ◌=ˢ◌,
}
use git_sync_core.Executor.Errors.{GoError, new_error, wrap}
use git_sync_core.Executor.Environment.{Outcome, done, error}
use git_sync_core.Channel.Entities.{MirrorTarget, MirrorChannel}
use git_sync_core.Channel.Tags.{trim_space}

pub record TargetInput : Type 0 where
  pub remote : Text
  pub repo_url : Text
  pub target_module : Text
  pub cred_type : String
  pub credential : Text
  pub username : Text

-- The switch of `validateTargetInput` on the type of the credential: the type that is left in the
-- input.
unfoldable pub checked_cred_type : String → Text → Outcome String
checked_cred_type cred_type credential =
    if (cred_type =ˢ "") || (cred_type =ˢ "none")
    then done "none"
    else if (cred_type =ˢ "token") || (cred_type =ˢ "ssh_key")
    then (if is_empty credential
        then error (new_error (codes "凭据类型 " ++ (codes cred_type ++ codes " 需要提供凭据内容")))
        else done cred_type)
    else error (new_error (codes "不支持的凭据类型: " ++ codes cred_type))

-- `validateTargetInput`: the input as it leaves it.
unfoldable pub validate_target_input : TargetInput → Outcome TargetInput
validate_target_input req =
    if is_empty (trim_space req.remote) || has_prefix req.remote (codes "-")
    then error (new_error (codes "远端名非法: " ++ (b'"' ∷ (req.remote ++ (b'"' ∷ [])))))
    else if is_empty (trim_space req.repo_url)
    then error (new_error (codes "目标仓库 URL 不能为空"))
    else elim (checked_cred_type req.cred_type req.credential) [
      | error e ↦ error e
      | done kind ↦ done (record req { cred_type = kind })
    ]

module _ (encrypt : Text → Outcome Text) where
  -- The credential that is stored for an input; an empty one leaves what is there.
  unfoldable pub stored_credential : Text → (old : Text) → Outcome Text
  stored_credential credential old =
      if is_empty credential then done old else elim (encrypt credential) [
        | error e ↦ error (wrap (codes "encrypt credential failed") e)
        | done c ↦ done c
      ]

  abbrev pub filled_target : TargetInput → Text → MirrorTarget → MirrorTarget
  filled_target req credential t = record t {
    remote = req.remote;
    repo_url = req.repo_url;
    target_module = req.target_module;
    cred_type = req.cred_type;
    username = req.username;
    credential = credential;
  }

  unfoldable pub with_credential : TargetInput → MirrorTarget → Outcome MirrorTarget
  with_credential req t = elim (stored_credential req.credential t.credential) [
    | error e ↦ error e
    | done c ↦ done (filled_target req c t)
  ]

  -- `UpdateMirrorTarget`, from the target that it has found to the row that it saves.
  unfoldable pub updated_target : TargetInput → MirrorTarget → Outcome MirrorTarget
  updated_target req t = elim (validate_target_input req) [
    | error e ↦ error e
    | done checked ↦ with_credential checked t
  ]

  abbrev new_target : MirrorChannel → MirrorTarget
  new_target ch = record {
    id = 0;
    channel_id = ch.id;
    remote = [];
    repo_url = [];
    target_module = [];
    cred_type = "";
    credential = [];
    username = [];
  }

  -- `createTarget`, up to the row that it inserts.
  unfoldable pub created_target : MirrorChannel → TargetInput → Outcome MirrorTarget
  created_target ch req = elim (validate_target_input req) [
    | error e ↦ error e
    | done checked ↦
        if (ch.mode =ˢ "publish") && is_empty checked.target_module
        then error (new_error (codes "目标 module 不能为空"))
        else if (ch.mode =ˢ "publish") && same checked.target_module ch.module_path
        then error (new_error (codes "目标 module 与源相同(" ++ (ch.module_path ++ codes "),无改写意义")))
        else with_credential checked (new_target ch)
  ]

pub data TargetAuth : Type 0 where
  no_auth : TargetAuth
  basic_auth : (username password : Text) → TargetAuth
  ssh_auth : (key : Text) → TargetAuth

-- `targetAuth`; `decrypt` reads the stored credential.
unfoldable pub target_auth : (Text → Outcome Text) → MirrorTarget → Outcome TargetAuth
target_auth decrypt t =
    if (t.cred_type =ˢ "") || (t.cred_type =ˢ "none")
    then done no_auth
    else if (t.cred_type =ˢ "token") || (t.cred_type =ˢ "ssh_key")
    then (elim (decrypt t.credential) [
      | error e ↦ error (wrap (codes "decrypt credential failed") e)
      | done plain ↦ done (
          if t.cred_type =ˢ "token"
          then basic_auth (if is_empty t.username then codes "oauth2" else t.username) plain
          else ssh_auth plain)
    ])
    else error (new_error (codes "不支持的凭据类型: " ++ codes t.cred_type))
