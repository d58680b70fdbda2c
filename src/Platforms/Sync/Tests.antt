-- ===== src/Platforms/Sync/Tests.antt =====
-- A synchronisation with one known and one new repository.
use git_sync_core.Prelude.{
  ◌≡◌, refl, true, false, none, some, List, [], ◌∷◌, ◌++◌, codes, is_empty, same, All, String,
}
use git_sync_core.Model.Entities.{Repo, Platform}
use git_sync_core.Executor.Environment.{done}
use git_sync_core.Executor.Errors.{new_error}
use git_sync_core.Platforms.Store.{update_repo_count, update_rows}
use git_sync_core.Platforms.Sync.{
  Seen, find_key, own_path, known, is_stale, refreshed, new_repo, replace_key, plan_one, plan_all,
}
use git_sync_core.Platforms.Sync.Laws.{is_taken, created_are_new}
use git_sync_core.Platforms.Sync.Rounds.{IsNamed, Differs}
use git_sync_core.Platforms.Sync.Fixpoint.{second_sync_asks_nothing}
use git_sync_core.Platforms.Sync.Writes.{
  Answers, stored, create_each, write_creates, write_updates, sync_collected, find_by_platform_id,
  pointed, batch_update_repo_meta, write_metas, write_meta,
}

abbrev gitlab : Platform
gitlab = record {
  id = 3;
  key = "gitlab";
  name = codes "GitLab";
  kind = "gitlab";
  instance_url = [];
  api_url = [];
  access_token = [];
  skip_tls_verify = false;
  ca_cert_path = [];
  proxy_url = [];
  is_default = true;
  status = "active";
  last_test_at = none;
  last_test_result = [];
  repo_count = 0;
}

abbrev seen : String → String → Seen
seen full_name path = record {
  full_name = full_name;
  name = path;
  owner = "obs";
  path = path;
  clone_url = codes "https://git/obs";
  ssh_url = [];
  default_branch = codes "main";
}

abbrev both : List Seen
both = seen "obs/a" "a" ∷ (seen "obs/b" "b" ∷ [])

-- The row of the first, with an old name.
abbrev old_row : Repo
old_row = record (new_repo gitlab (seen "obs/a" "a")) { id = 1; key = "obs/a"; name = codes "old" }

created_are_new_example :
    All
      (λ (r : Repo). is_taken r.key (old_row ∷ []) ≡ false)
      (plan_all gitlab both
        (record { existing = old_row ∷ []; to_update = []; to_create = [] })).to_create
created_are_new_example = created_are_new gitlab both (old_row ∷ [])

second_sync_asks_nothing_example :
    let first =
      plan_all gitlab both (record { existing = old_row ∷ []; to_update = []; to_create = [] }) in
    let wanted = first.existing ++ first.to_create in
    plan_all gitlab both (record { existing = wanted; to_update = []; to_create = [] })
    ≡ record { existing = wanted; to_update = []; to_create = [] }
unfolding IsNamed Differs
second_sync_asks_nothing_example =
    second_sync_asks_nothing gitlab both (old_row ∷ []) (refl, (refl, tt), (refl, tt, tt))

abbrev batch_fails : Answers
batch_fails = record {
  loading = none;
  updating = none;
  creating = some (new_error []);
  creating_one = λ r. none;
  new_id = λ r. 2;
  counted = done 2;
  counting = none;
}

-- The first is renamed and the second added, row by row after the batch has failed.
both_are_counted :
    sync_collected batch_fails gitlab both (record { repos = old_row ∷ []; platforms = [] }) ≡ (
      2,
      record {
        repos =
            record old_row { name = codes "a" }
            ∷ (record (new_repo gitlab (seen "obs/b" "b")) { id = 2; key = "obs/b" } ∷ []);
        platforms = [];
      },
    )
unfolding sync_collected find_by_platform_id plan_all plan_one known find_key is_stale refreshed
    new_repo replace_key own_path write_updates pointed batch_update_repo_meta write_metas
    write_meta write_creates create_each stored update_repo_count update_rows is_empty same
both_are_counted = refl
