-- ===== src/Executor/Git.antt =====
-- The git steps of executor/executor.go: authentication, clone, fetch, the remotes and push. The
-- first number of each is the deadline of the context.
use git_sync_core.Prelude.{
  ℕ, ◌==◌, Bool, true, false, ◌||◌, Option, none, some, List, [], ◌∷◌, ◌++◌, Text, codes, is_empty,
  same, trim_right, any, if◌then◌else◌,
}
use git_sync_core.Model.Entities.{Repo, Platform, SyncTask}
use git_sync_core.Executor.Errors.{GoError}
use git_sync_core.Executor.Environment.{
  Environment, done, error, AuthConfig, token_auth, no_auth, CloneOptions, FetchOptions,
  PushOptions, Exec, note, cloned, fetched, pushed,
}

-- `remoteURLsEqual`
unfoldable pub remote_urls_equal : Text → Text → Bool
remote_urls_equal a b = same (trim_right b'/' a) (trim_right b'/' b)

-- `defaultBranchOf`
unfoldable pub default_branch_of : Option Repo → Text
default_branch_of none = codes "main"
default_branch_of (some r) = if is_empty r.default_branch then codes "main" else r.default_branch

abbrev pub remote_origin : Text
remote_origin = codes "origin"

abbrev pub remote_target : Text
remote_target = codes "target"

-- The map of `prefetchPlatforms`; an identifier may be present with no platform.
abbrev pub Platforms : Type 0
Platforms = List (ℕ × Option Platform)

unfoldable pub is_prefetched : ℕ → Platforms → Bool
is_prefetched id m = any (λ p. p.0 == id) m

-- `platforms[id]`
unfoldable pub platform_of : ℕ → Platforms → Option Platform
platform_of id [] = none
platform_of id ((i, p) ∷ m) = if i == id then p else platform_of id m

-- The choice of a token by `authConfig` once the platform's fields are known.
unfoldable pub auth_with : Repo → Bool → Text → AuthConfig
auth_with r skip_tls platform_token =
    let token = if is_empty r.access_token then platform_token else r.access_token in
    if is_empty token then no_auth skip_tls else token_auth token skip_tls

unfoldable pub auth_of : Repo → Option Platform → AuthConfig
auth_of r none = auth_with r false []
auth_of r (some p) = auth_with r p.skip_tls_verify p.access_token

-- The `refSpec` of `push`
unfoldable pub ref_spec : SyncTask → Text
ref_spec task =
    codes "refs/heads/" ++ (task.source_branch ++ (codes ":refs/heads/" ++ task.target_branch))

module _ (E : Environment) where
  abbrev set_world : Environment.World E → Exec E → Exec E
  set_world w s = record s { world = w }

  unfoldable pub add_remote : ℕ → (dir name url : Text) → Exec E → Option GoError × Exec E
  add_remote deadline dir name url s =
      let (err, w) = Environment.git_add_remote E deadline dir name url s.world in
      (err, set_world w s)

  -- What follows the comparison in `syncRemoteURL`: the remote is removed and added again.
  unfoldable pub replace_remote : ℕ → (dir name want : Text) → Exec E → Option GoError × Exec E
  replace_remote deadline dir name want s =
      let (err, w) = Environment.git_remove_remote E deadline dir name s.world in
      elim err [
        | some e ↦ (some e, set_world w s)
        | none ↦ add_remote deadline dir name want (set_world w s)
      ]

  -- The end of `fetchRepo`: an error on asking for the branch is only logged.
  unfoldable pub checkout_source : ℕ → (dir : Text) → SyncTask → Exec E → Option GoError × Exec E
  checkout_source deadline dir task s =
      if same (Environment.git_current_branch E deadline dir s.world).0 task.source_branch
      then (none, s)
      else let (err, w) = Environment.git_checkout E deadline dir task.source_branch s.world in
        (err, set_world w s)

  -- One repository of the loop of `prefetchPlatforms`.
  unfoldable pub prefetch_one : Environment.World E → Repo → Platforms → Platforms
  prefetch_one w r m =
      if (r.platform_id == 0) || is_prefetched r.platform_id m
      then m
      else elim (Environment.get_platform_by_id E r.platform_id w) [
        | done p ↦ (r.platform_id, p) ∷ m
        | error _ ↦ m
      ]

  -- `prefetchPlatforms` for the source and the target
  unfoldable pub prefetch_platforms : Environment.World E → (source target : Repo) → Platforms
  prefetch_platforms w source target = prefetch_one w target (prefetch_one w source [])

  -- `authConfig`: with no platform at hand it asks once more.
  unfoldable pub auth_config : Repo → Option Platform → Environment.World E → AuthConfig
  auth_config r (some p) w = auth_of r (some p)
  auth_config r none w =
      if r.platform_id == 0
      then auth_of r none
      else elim (Environment.get_platform_by_id E r.platform_id w) [
        | done p ↦ auth_of r p
        | error _ ↦ auth_of r none
      ]

  -- `cloneRepo`
  unfoldable pub clone_repo :
      ℕ → (dir : Text) → Repo → SyncTask → Option Platform → Exec E → Option GoError × Exec E
  clone_repo deadline dir repo task platform s =
      let opts : CloneOptions = record {
        url = repo.clone_url;
        path = dir;
        branch = task.source_branch;
        single_branch = true;
        auth = auth_config repo platform s.world;
      } in
      let (err, w) = Environment.git_clone E deadline opts s.world in
      (err, note E (cloned opts) w s)

  -- `syncRemoteURL`
  unfoldable pub sync_remote_url : ℕ → (dir name want : Text) → Exec E → Option GoError × Exec E
  sync_remote_url deadline dir name want s =
      if is_empty want
      then (none, s)
      else elim (Environment.git_remote_url E deadline dir name s.world) [
        | error e ↦ (some e, s)
        | done cur ↦
            if remote_urls_equal cur want
            then (none, s)
            else replace_remote deadline dir name want s
      ]

  -- `ensureRemote`
  unfoldable pub ensure_remote : ℕ → (dir : Text) → Repo → Exec E → Option GoError × Exec E
  ensure_remote deadline dir repo s = elim (Environment.git_remotes E deadline dir s.world) [
    | error e ↦ (some e, s)
    | done names ↦
        if any (same remote_target) names
        then sync_remote_url deadline dir remote_target repo.clone_url s
        else add_remote deadline dir remote_target repo.clone_url s
  ]

  unfoldable pub fetch_options :
      (dir : Text) → SyncTask → Repo → Option Platform → Environment.World E → FetchOptions
  fetch_options dir task repo platform w = record {
    repo_path = dir;
    remote = remote_origin;
    branches = task.source_branch ∷ [];
    tags = task.git_tags;
    prune = task.git_prune;
    auth = auth_config repo platform w;
  }

  -- `fetchRepo`: an error of `syncRemoteURL` is only logged.
  unfoldable pub fetch_repo :
      ℕ → (dir : Text) → SyncTask → Repo → Option Platform → Exec E → Option GoError × Exec E
  fetch_repo deadline dir task repo platform s =
      let (_, s1) = sync_remote_url deadline dir remote_origin repo.clone_url s in
      let opts = fetch_options dir task repo platform s1.world in
      let (err, w) = Environment.git_fetch E deadline opts s1.world in
      let s2 = note E (fetched opts) w s1 in
      elim err [ some e ↦ (some e, s2) | none ↦ checkout_source deadline dir task s2 ]

  unfoldable pub push_options :
      (dir : Text) → SyncTask → Repo → Option Platform → Environment.World E → PushOptions
  push_options dir task repo platform w = record {
    repo_path = dir;
    remote = remote_target;
    ref_specs = ref_spec task ∷ [];
    force = task.git_force;
    auth = auth_config repo platform w;
  }

  -- `push`
  unfoldable pub push :
      ℕ → (dir : Text) → SyncTask → Repo → Option Platform → Exec E → Option GoError × Exec E
  push deadline dir task repo platform s =
      let opts = push_options dir task repo platform s.world in
      let (err, w) = Environment.git_push E deadline opts s.world in
      (err, note E (pushed opts err) w s)
