-- ===== src/Platforms/Tests.antt =====
-- The services for platforms at concrete inputs.
use git_sync_core.Prelude.{
  ℕ, ◌+◌, ◌-◌, ◌*◌, ◌≡◌, refl, true, false, none, some, String, List, [], ◌∷◌, Text, codes,
  is_empty, same, subst, take, drop, map, arith,
}
use git_sync_core.Model.Entities.{Platform}
use git_sync_core.Executor.Errors.{new_error}
use git_sync_core.Executor.Environment.{Outcome, done, error}
use git_sync_core.Platforms.{PlatformRepo, repo_id, fetch_all_platform_repos, fetch_pages, add_page}
use git_sync_core.Platforms.Paging.{firsts, fetch_all-firsts}
use git_sync_core.Platforms.Store.{
  Row, first_row, find_rows, update_rows, has_key, insert_row, create, update, find_by_key, delete,
  set_default, filled, inserted, write_row, encrypt_platform, decrypt_platform, decrypted, save_row,
  replace_row, has_id, duplicate_key,
}
use git_sync_core.Platforms.Store.Laws.{find_by_key-create}
use git_sync_core.Platforms.Store.Defaults.{as_default, defaults_are_named}

abbrev repo : String → Text → PlatformRepo
repo full url = record {
  name = full;
  full_name = full;
  owner = "";
  clone_url = url;
  ssh_url = [];
  default_branch = codes "main";
}

abbrev listed : List PlatformRepo
listed =
    repo "a/x" (codes "u1")
    ∷ (repo "a/y" [] ∷ (repo "a/z" (codes "u1") ∷ (repo "b/y" (codes "u2") ∷ [])))

abbrev page_of_three : ℕ → Outcome (List PlatformRepo)
page_of_three page = done (take 3 (drop ((page - 1) * 3) listed))

fetch_all-firsts_example :
    fetch_all_platform_repos 3 page_of_three ≡ done (firsts [] (take (100 * 3) listed))
fetch_all-firsts_example =
    fetch_all-firsts 3 page_of_three listed
      (λ i. let back : (i + 1) - 1 ≡ i = omega arith in rw back refl)

three_are_left :
    fetch_all_platform_repos 3 page_of_three
    ≡ done (repo "a/x" (codes "u1") ∷ (repo "a/y" [] ∷ (repo "b/y" (codes "u2") ∷ [])))
unfolding fetch_all_platform_repos fetch_pages add_page repo_id is_empty same
three_are_left = refl

-- A cipher that puts a mark before the text.
abbrev marked : ℕ → Text → Outcome Text
marked nonce t = done (1 ∷ t)

abbrev unmarked : Text → Outcome Text
unmarked [] = error (new_error [])
unmarked (c ∷ t) = done t

abbrev secret_of : Outcome Text → Text
secret_of (done s) = s
secret_of (error e) = []

abbrev gitea : Platform
gitea = record {
  id = 0;
  key = "gitea";
  name = codes "Gitea";
  kind = "gitea";
  instance_url = [];
  api_url = [];
  access_token = codes "secret";
  skip_tls_verify = false;
  ca_cert_path = [];
  proxy_url = [];
  is_default = false;
  status = "active";
  last_test_at = none;
  last_test_result = [];
  repo_count = 0;
}

-- The platform as it is given, without a status.
abbrev unstated : Platform
unstated = record gitea { status = "" }

find_by_key-create_example :
    find_by_key marked unmarked none gitea.key (create marked unmarked none 7 0 unstated []).rows
    ≡ done (some (record gitea { id = 7 }))
unfolding create encrypt_platform insert_row filled inserted is_empty
find_by_key-create_example =
    find_by_key-create marked unmarked
      (λ nonce t s e. subst (λ (o : Outcome Text). unmarked (secret_of o) ≡ done t) e refl)
      (λ nonce t s e. subst (λ (o : Outcome Text). is_empty (secret_of o) ≡ false) e refl) none 7 0
      unstated [] refl

abbrev two_rows : List Row
two_rows =
    record { platform = record gitea { key = "github"; is_default = true }; deleted = false }
    ∷ (record { platform = gitea; deleted = false } ∷ [])

defaults_are_named_example :
    find_rows (λ p. p.is_default) (set_default none none "gitea" two_rows).1
    ≡ map (as_default true) (find_rows (has_key "gitea") two_rows)
unfolding set_default
defaults_are_named_example = defaults_are_named none none "gitea" two_rows refl

-- An object that was created and is then saved is encrypted twice: its token is read back encrypted.
saved_after_create :
    let created = create marked unmarked none 7 0 gitea [] in
    find_by_key marked unmarked none gitea.key
      (update marked unmarked none 7 0 created.caller created.rows).rows
    ≡ done (some (record gitea { id = 7; access_token = 1 ∷ codes "secret" }))
unfolding create update save_row write_row filled inserted replace_row has_id has_key
    encrypt_platform decrypt_platform decrypted find_by_key first_row insert_row is_empty
saved_after_create = refl

-- The key of a deleted platform cannot be used again.
key_stays_taken :
    (create marked unmarked none 7 0 gitea (delete none "gitea" two_rows).1).failed
    ≡ some duplicate_key
unfolding create delete insert_row filled inserted has_key encrypt_platform is_empty
key_stays_taken = refl

-- A key that no platform has leaves no default, without an error.
default_is_lost : set_default none none "unknown" two_rows ≡ (
  none,
  record { platform = record gitea { key = "github" }; deleted = false }
      ∷ (record { platform = gitea; deleted = false } ∷ []),
)
unfolding set_default update_rows has_key
default_is_lost = refl
