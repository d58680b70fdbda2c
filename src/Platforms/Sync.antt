-- ===== src/Platforms/Sync.antt =====
-- `SyncPlatformRepos` of service/platform_service.go. Parameters: Go's package net/url, the SDK's
-- `SplitFullName`, and the answers of the database to the writes. Logging is left out.
pub mod Laws
pub mod Writes
pub mod Keys
pub mod Rounds
pub mod Fixpoint
pub mod Tests
use Prim.Native.String.{◌++◌ as append}
use git_sync_core.Prelude.{
  ℕ, suc, ◌+◌, Bool, true, false, not, ◌&&◌, ◌||◌, String, Option, none, some, List, [], ◌∷◌, ◌++◌,
  Text, codes, is_empty, same, contains, length, if◌then◌else◌, ◌=ˢ◌,
}
use git_sync_core.Model.Entities.{Repo, Platform}
use git_sync_core.Executor.Errors.{GoError}
use git_sync_core.Executor.Environment.{Outcome, done, error}
use git_sync_core.Platforms.{PlatformRepo}

-- What the program uses of net/url.
pub record Urls : Type 1 where
  pub Url : Type 0
  -- none where `url.Parse` returns an error
  pub parse : Text → Option Url
  pub scheme : Url → Text
  pub host : Url → Text
  -- the address with another scheme and host
  pub moved : (scheme host : Text) → Url → Url
  pub print : Url → Text

-- What the platform says of a repository, as it is compared with a row and written to it.
pub record Seen : Type 0 where
  pub full_name : String
  pub name : String
  pub owner : String
  pub path : String
  pub clone_url : Text
  pub ssh_url : Text
  pub default_branch : Text

module _ (urls : Urls) (split_full_name : String → String × String) where
  -- The part of `rewriteCloneHost` after the instance's address is parsed.
  unfoldable pub move_to : (raw : Text) → urls.Url → Text
  move_to raw iu = elim (urls.parse raw) [
    | none ↦ raw
    | some cu ↦
        if is_empty (urls.host cu) || same (urls.host cu) (urls.host iu)
        then raw
        else urls.print (urls.moved (urls.scheme iu) (urls.host iu) cu)
  ]

  unfoldable pub with_scheme : Text → Text
  with_scheme address =
      if contains address (codes "://") then address else codes "https://" ++ address

  -- `rewriteCloneHost`, of a platform that is there
  unfoldable pub rewrite_clone_host : (raw : Text) → Platform → Text
  rewrite_clone_host raw platform =
      if is_empty raw || is_empty platform.instance_url
      then raw
      else (elim (urls.parse (with_scheme platform.instance_url)) [
        | none ↦ raw
        | some iu ↦ if is_empty (urls.host iu) then raw else move_to raw iu
      ])

  -- `splitRepoPath`
  unfoldable pub split_repo_path : (full_name sdk_owner sdk_name : String) → String × String
  split_repo_path full_name sdk_owner sdk_name =
      if not (full_name =ˢ "") then split_full_name full_name else (sdk_owner, sdk_name)

  unfoldable pub seen_on : Platform → PlatformRepo → Seen
  seen_on platform r =
      let (owner, path) = split_repo_path r.full_name r.owner r.name in
      record {
        full_name = r.full_name;
        name = r.name;
        owner = owner;
        path = path;
        clone_url = rewrite_clone_host r.clone_url platform;
        ssh_url = rewrite_clone_host r.ssh_url platform;
        default_branch = r.default_branch;
      }

-- The columns that the database layer keeps unique leave one row to a key.
unfoldable pub find_key : String → List Repo → Option Repo
find_key key [] = none
find_key key (r ∷ rs) = let rest = find_key key rs in if r.key =ˢ key then some r else rest

unfoldable pub own_path : Seen → String
own_path s = append s.owner (append "/" s.path)

unfoldable pub known : Seen → List Repo → Option Repo
known s existing = elim (find_key s.full_name existing) [
  | some e ↦ some e
  | none ↦ if s.full_name =ˢ "" then find_key (own_path s) existing else none
]

unfoldable pub is_stale : Seen → Repo → Bool
is_stale s e =
    not (same e.clone_url s.clone_url)
    || (not (same e.ssh_url s.ssh_url)
        || (not (same e.platform_owner (codes s.owner))
            || (not (same e.platform_repo (codes s.path))
                || ((not (s.name =ˢ "") && not (same e.name (codes s.name)))
                    || (not (is_empty s.default_branch)
                        && not (same e.default_branch s.default_branch))))))

unfoldable pub refreshed : Seen → Repo → Repo
refreshed s e = record e {
  clone_url = s.clone_url;
  ssh_url = s.ssh_url;
  platform_owner = codes s.owner;
  platform_repo = codes s.path;
  name = if s.name =ˢ "" then e.name else codes s.name;
  default_branch = if is_empty s.default_branch then e.default_branch else s.default_branch;
}

unfoldable pub new_repo : Platform → Seen → Repo
new_repo platform s = record {
  id = 0;
  key = if s.full_name =ˢ "" then own_path s else s.full_name;
  name = if s.name =ˢ "" then codes s.path else codes s.name;
  platform_id = platform.id;
  platform = platform.kind;
  platform_owner = codes s.owner;
  platform_repo = codes s.path;
  clone_url = s.clone_url;
  ssh_url = s.ssh_url;
  default_branch = s.default_branch;
  access_token = [];
  webhook_secret = [];
  webhook_id = 0;
  status = "active";
}

-- `existingMap`, `toUpdate` and `toCreate`. The rows to update are pointers into the map: they are
-- kept as keys, and the map is changed in place.
pub record Plan : Type 0 where
  pub existing : List Repo
  pub to_update : List String
  pub to_create : List Repo

unfoldable pub replace_key : String → Repo → List Repo → List Repo
replace_key key r' [] = []
replace_key key r' (r ∷ rs) = (if r.key =ˢ key then r' else r) ∷ replace_key key r' rs

-- One round of the loop over the platform's repositories.
unfoldable pub plan_one : Platform → Seen → Plan → Plan
plan_one platform s plan = elim (known s plan.existing) [
  | none ↦ record plan { to_create = plan.to_create ++ (new_repo platform s ∷ []) }
  | some e ↦
      if is_stale s e
      then record plan {
        existing = replace_key e.key (refreshed s e) plan.existing;
        to_update = plan.to_update ++ (e.key ∷ []);
      }
      else plan
]

unfoldable pub plan_all : Platform → List Seen → Plan → Plan
plan_all platform [] plan = plan
plan_all platform (s ∷ ss) plan = plan_all platform ss (plan_one platform s plan)
