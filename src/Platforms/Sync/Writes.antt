-- ===== src/Platforms/Sync/Writes.antt =====
-- The writes of `SyncPlatformRepos`, with BatchUpdateRepoMeta and BatchCreate of dao/repo_dao.go. The new
-- rows have no credentials, so nothing of them is encrypted. The database's answers are parameters:
-- `none` where a write succeeds.
use git_sync_core.Prelude.{
  ℕ, ◌+◌, ◌==◌, String, Option, none, some, List, [], ◌∷◌, ◌++◌, map, length, if◌then◌else◌,
  is_empty, ◌=ˢ◌, codes,
}
use git_sync_core.Model.Entities.{Repo, Platform}
use git_sync_core.Executor.Errors.{GoError, new_error, wrap}
use git_sync_core.Executor.Environment.{Outcome, done, error}
use git_sync_core.Platforms.{PlatformRepo, fetch_all_platform_repos}
use git_sync_core.Platforms.Store.{Row, update_repo_count}
use git_sync_core.Platforms.Sync.{Urls, Seen, Plan, seen_on, find_key, plan_all}

unfoldable pub write_meta : Repo → List Repo → List Repo
write_meta r [] = []
write_meta r (row ∷ rows) =
    (if row.id == r.id
      then record row {
        clone_url = r.clone_url;
        ssh_url = r.ssh_url;
        platform_owner = r.platform_owner;
        platform_repo = r.platform_repo;
        name = r.name;
        default_branch = r.default_branch;
      }
      else row)
    ∷ write_meta r rows

unfoldable pub write_metas : List Repo → List Repo → List Repo
write_metas [] rows = rows
write_metas (r ∷ rs) rows = write_metas rs (write_meta r rows)

-- `BatchUpdateRepoMeta`: one transaction.
unfoldable pub batch_update_repo_meta :
    (failure : Option GoError) → List Repo → (rows : List Repo) → Option GoError × List Repo
batch_update_repo_meta (some e) rs rows = (some e, rows)
batch_update_repo_meta none rs rows = (none, write_metas rs rows)

-- The rows that the keys of `to_update` point to, as the map has them at the end.
unfoldable pub pointed : List String → List Repo → List Repo
pointed [] existing = []
pointed (k ∷ ks) existing = elim (find_key k existing) [
  | some r ↦ r ∷ pointed ks existing
  | none ↦ pointed ks existing
]

-- `FindByPlatformID`
unfoldable pub find_by_platform_id : ℕ → List Repo → List Repo
find_by_platform_id id [] = []
find_by_platform_id id (r ∷ rs) =
    let rest = find_by_platform_id id rs in if r.platform_id == id then r ∷ rest else rest

-- The answers of the database.
pub record Answers : Type 0 where
  pub loading : Option GoError
  pub updating : Option GoError
  pub creating : Option GoError
  pub creating_one : Repo → Option GoError
  pub new_id : Repo → ℕ
  pub counted : Outcome ℕ
  pub counting : Option GoError

pub record Tables : Type 0 where
  pub repos : List Repo
  pub platforms : List Row

module _ (answers : Answers) where
  -- A row that is created: its new id, and gorm's default of a column that is empty.
  unfoldable pub stored : Repo → Repo
  stored r = record r {
    id = answers.new_id r;
    default_branch = if is_empty r.default_branch then codes "main" else r.default_branch;
    status = if r.status =ˢ "" then "active" else r.status;
  }

  -- The loop that creates row by row after the batch has failed, with its part of `count`.
  unfoldable pub create_each : List Repo → (rows : List Repo) → ℕ × List Repo
  create_each [] rows = (0, rows)
  create_each (r ∷ rs) rows =
      let skipped = create_each rs rows in
      let (n, rows') = create_each rs (rows ++ (stored r ∷ [])) in
      elim (answers.creating_one r) [ some e ↦ skipped | none ↦ (1 + n, rows') ]

  unfoldable pub write_creates : List Repo → (rows : List Repo) → ℕ × List Repo
  write_creates [] rows = (0, rows)
  write_creates (r ∷ rs) rows = elim answers.creating [
    | none ↦ (length (r ∷ rs), rows ++ map stored (r ∷ rs))
    | some e ↦ create_each (r ∷ rs) rows
  ]

  unfoldable pub write_updates : Plan → (rows : List Repo) → ℕ × List Repo
  write_updates plan rows = elim plan.to_update [
    | [] ↦ (0, rows)
    | k ∷ ks ↦
        let (failed, rows') =
          batch_update_repo_meta answers.updating (pointed (k ∷ ks) plan.existing) rows in
        elim failed [ none ↦ (length (k ∷ ks), rows') | some e ↦ (0, rows) ]
  ]

  -- The part of `SyncPlatformRepos` after the platform's repositories are collected.
  unfoldable pub sync_collected : Platform → List Seen → Tables → ℕ × Tables
  sync_collected platform seen tables =
      let mine = find_by_platform_id platform.id tables.repos in
      let loaded : List Repo = elim answers.loading [ none ↦ mine | some e ↦ [] ] in
      let plan =
        plan_all platform seen (record { existing = loaded; to_update = []; to_create = [] }) in
      let (updated, repos') = write_updates plan tables.repos in
      let (created, repos'') = write_creates plan.to_create repos' in
      let (failed, platforms') =
        update_repo_count answers.counted answers.counting platform.id tables.platforms in
      (updated + created, record { repos = repos''; platforms = platforms' })

  -- `SyncPlatformRepos`, with the message of the missing platform shortened to its key
  unfoldable pub sync_platform_repos :
      (urls : Urls)
      → (split_full_name : String → String × String)
      → (provider : Platform → Outcome (ℕ → Outcome (List PlatformRepo))) → (max_per_page : ℕ)
      → (key : String) → (found : Outcome (Option Platform)) → Tables
      → Outcome ℕ × Tables
  sync_platform_repos urls split_full_name provider max_per_page key (error e) tables =
      (error (wrap (codes "query platform failed") e), tables)
  sync_platform_repos urls split_full_name provider max_per_page key (done none) tables =
      (error (new_error (codes "platform not found: " ++ codes key)), tables)
  sync_platform_repos urls split_full_name provider max_per_page key (done (some platform)) tables =
      elim (provider platform) [
        | error e ↦ (error (wrap (codes "create provider failed") e), tables)
        | done list_repos ↦ elim (fetch_all_platform_repos max_per_page list_repos) [
          | error e ↦ (error (wrap (codes "list repos failed") e), tables)
          | done repos ↦
              let seen = map (seen_on urls split_full_name platform) repos in
              let (count, tables') = sync_collected platform seen tables in (done count, tables')
        ]
      ]
