-- ===== src/Platforms.antt =====
-- `fetchAllPlatformRepos` of service/provider_helper.go, and below it the store of platforms and their
-- synchronisation. The SDK is a parameter: each page is asked for once, so its answers are a function
-- of the page.
pub mod Paging
pub mod Store
pub mod Sync
pub mod Tests
use git_sync_core.Prelude.{
  ℕ, zero, suc, ◌+◌, ltb, Bool, true, false, not, ◌&&◌, ◌||◌, String, Option, none, some, List, [],
  ◌∷◌, ◌++◌, Text, codes, is_empty, same, contains, any, length, if◌then◌else◌,
}
use git_sync_core.Executor.Errors.{GoError}
use git_sync_core.Executor.Environment.{Outcome, done, error}

-- The fields of the SDK's `PlatformRepo` that the program reads.
pub record PlatformRepo : Type 0 where
  pub name : String
  pub full_name : String
  pub owner : String
  pub clone_url : Text
  pub ssh_url : Text
  pub default_branch : Text

unfoldable pub repo_id : PlatformRepo → Text
repo_id r = if is_empty r.clone_url then codes r.full_name else r.clone_url

-- The loop over one page: `all` and `seen`.
unfoldable pub add_page :
    List PlatformRepo
    → (collected : List PlatformRepo) → (seen : List Text) → List PlatformRepo × List Text
add_page [] collected seen = (collected, seen)
add_page (r ∷ rs) collected seen =
    let fresh = add_page rs (collected ++ (r ∷ [])) (repo_id r ∷ seen) in
    let known = add_page rs collected seen in if any (same (repo_id r)) seen then known else fresh

module _ (per_page : ℕ) (list_repos : (page : ℕ) → Outcome (List PlatformRepo)) where
  -- The loop over the pages that are left, from `page` on.
  unfoldable pub fetch_pages :
      (left page : ℕ)
      → (collected : List PlatformRepo) → (seen : List Text) → Outcome (List PlatformRepo)
  fetch_pages zero page collected seen = done collected
  fetch_pages (suc left) page collected seen = elim (list_repos page) [
    | error e ↦ error e
    | done repos ↦
        let (collected', seen') = add_page repos collected seen in
        let rest = fetch_pages left (page + 1) collected' seen' in
        if ltb (length repos) per_page then done collected' else rest
  ]

  -- `fetchAllPlatformRepos`
  unfoldable pub fetch_all_platform_repos : Outcome (List PlatformRepo)
  fetch_all_platform_repos = fetch_pages 100 1 [] []
