-- ===== src/Platforms/Paging.antt =====
-- What `fetchAllPlatformRepos` returns of the list that the platform has.
use git_sync_core.Prelude.{
  ℕ, zero, suc, ◌+◌, ◌*◌, ◌<◌, ltb, true, false, ◌≡◌, refl, sym, ap, ◌∙◌, inl, inr, List, [], ◌∷◌,
  ◌++◌, Text, same, any, length, take, drop, ltb→lt, arith, Bool-cases, if◌then◌else◌,
}
use mathlib.Core.List.{append_assoc, append-nil}
use git_sync_core.Executor.Environment.{Outcome, done}
use git_sync_core.Platforms.{PlatformRepo, repo_id, add_page, fetch_pages, fetch_all_platform_repos}

-- The repositories whose identifier has not been seen, the first of each.
unfoldable pub firsts : (seen : List Text) → List PlatformRepo → List PlatformRepo
firsts seen [] = []
firsts seen (r ∷ rs) =
    let fresh = r ∷ firsts (repo_id r ∷ seen) rs in
    let known = firsts seen rs in if any (same (repo_id r)) seen then known else fresh

seen_after : (seen : List Text) → List PlatformRepo → List Text
seen_after seen [] = seen
seen_after seen (r ∷ rs) =
    let fresh = seen_after (repo_id r ∷ seen) rs in
    let known = seen_after seen rs in if any (same (repo_id r)) seen then known else fresh

add_page-firsts :
    (rs collected : List PlatformRepo) (seen : List Text)
    → add_page rs collected seen ≡ (collected ++ firsts seen rs, seen_after seen rs)
unfolding add_page firsts seen_after
add_page-firsts [] collected seen =
    ap (λ (c : List PlatformRepo). (c, seen)) (sym (append-nil collected))
add_page-firsts (r ∷ rs) collected seen = elim (Bool-cases (any (same (repo_id r)) seen)) [
  | inl known ↦ rw known (add_page-firsts rs collected seen)
  | inr fresh ↦ rw fresh (
      add_page-firsts rs (collected ++ (r ∷ [])) (repo_id r ∷ seen)
      ∙ ap (λ (c : List PlatformRepo). (c, seen_after (repo_id r ∷ seen) rs))
          (append_assoc collected (r ∷ []) (firsts (repo_id r ∷ seen) rs)))
]

firsts-append :
    (xs ys : List PlatformRepo) (seen : List Text)
    → firsts seen (xs ++ ys) ≡ firsts seen xs ++ firsts (seen_after seen xs) ys
unfolding firsts seen_after
firsts-append [] ys seen = refl
firsts-append (x ∷ xs) ys seen =
    ground (arith, firsts-append xs ys seen, firsts-append xs ys (repo_id x ∷ seen))

take-nil : (n : ℕ) → take {A = PlatformRepo} n [] ≡ []
take-nil zero = refl
take-nil (suc n) = refl

drop-nil : (n : ℕ) → drop {A = PlatformRepo} n [] ≡ []
drop-nil zero = refl
drop-nil (suc n) = refl

take-plus :
    (k n m : ℕ) (xs : List PlatformRepo) → k ≡ n + m → take k xs ≡ take n xs ++ take m (drop n xs)
take-plus k zero m xs e = let e' : k ≡ m = omega arith in rw e' refl
take-plus zero (suc n) m xs e = absurd (omega arith)
take-plus (suc k) (suc n) m [] e = sym (take-nil m)
take-plus (suc k) (suc n) m (x ∷ xs) e =
    ap (λ (t : List PlatformRepo). x ∷ t) (take-plus k n m xs (omega arith))

take_short : (n : ℕ) (xs : List PlatformRepo) → length (take n xs) < n → drop n xs ≡ []
take_short zero xs h = absurd (omega arith)
take_short (suc n) [] h = refl
take_short (suc n) (x ∷ xs) h = take_short n xs (omega arith)

drop-plus : (k n m : ℕ) (xs : List PlatformRepo) → k ≡ n + m → drop m (drop n xs) ≡ drop k xs
drop-plus k zero m xs e = let e' : k ≡ m = omega arith in rw e' refl
drop-plus zero (suc n) m xs e = absurd (omega arith)
drop-plus (suc k) (suc n) m [] e = drop-nil m
drop-plus (suc k) (suc n) m (x ∷ xs) e = drop-plus k n m xs (omega arith)

module _ (per_page : ℕ) (list_repos : ℕ → Outcome (List PlatformRepo)) where
  fetch_pages-ended :
      (page : ℕ) (collected : List PlatformRepo) (seen : List Text)
      → fetch_pages per_page list_repos 0 page collected seen ≡ done collected
  unfolding fetch_pages
  fetch_pages-ended page collected seen = refl

  fetch_pages-last :
      (left page : ℕ) (collected : List PlatformRepo) (seen : List Text) (repos : List PlatformRepo)
      → list_repos page ≡ done repos
      → ltb (length repos) per_page ≡ true
      → fetch_pages per_page list_repos (suc left) page collected seen
        ≡ done (collected ++ firsts seen repos)
  unfolding fetch_pages
  fetch_pages-last left page collected seen repos listed last =
      rw (fetch_pages, listed, add_page-firsts repos collected seen, last) refl

  fetch_pages-more :
      (left page : ℕ) (collected : List PlatformRepo) (seen : List Text) (repos : List PlatformRepo)
      → list_repos page ≡ done repos
      → ltb (length repos) per_page ≡ false
      → fetch_pages per_page list_repos (suc left) page collected seen
        ≡ fetch_pages per_page list_repos left
            (page + 1)
            (collected ++ firsts seen repos)
            (seen_after seen repos)
  unfolding fetch_pages
  fetch_pages-more left page collected seen repos listed more =
      rw (fetch_pages, listed, add_page-firsts repos collected seen, more) refl

module _ (per_page : ℕ) (list_repos : ℕ → Outcome (List PlatformRepo))
    (all_repos : List PlatformRepo)
    (paged : (i : ℕ)
      → list_repos (i + 1) ≡ done (take per_page (drop (i * per_page) all_repos))) where
  fetch_pages-firsts :
      (left i page : ℕ) (collected : List PlatformRepo) (seen : List Text)
      → page ≡ i + 1
      → fetch_pages per_page list_repos left page collected seen
        ≡ done (collected ++ firsts seen (take (left * per_page) (drop (i * per_page) all_repos)))
  unfolding firsts
  fetch_pages-firsts zero i page collected seen e =
      let none_left : 0 * per_page ≡ 0 = omega arith in
      fetch_pages-ended per_page list_repos page collected seen
      ∙ rw none_left (sym (ap done (append-nil collected)))
  fetch_pages-firsts (suc left) i page collected seen e =
      let rest = drop (i * per_page) all_repos in
      let repos = take per_page rest in
      let listed : list_repos page ≡ done repos = rw e (paged i) in
      let split : take (suc left * per_page) rest
          ≡ repos ++ take (left * per_page) (drop per_page rest) =
        take-plus (suc left * per_page) per_page (left * per_page) rest (grind arith) in
      elim (Bool-cases (ltb (length repos) per_page)) [
        | inl last ↦
            let ended : drop per_page rest ≡ [] =
              take_short per_page rest (ltb→lt (length repos) per_page last) in
            fetch_pages-last per_page list_repos left page collected seen repos listed last
            ∙ rw (split, ended, take-nil (left * per_page), append-nil repos) refl
        | inr more ↦
            let next : drop per_page rest ≡ drop ((i + 1) * per_page) all_repos =
              drop-plus ((i + 1) * per_page) (i * per_page) per_page all_repos (grind arith) in
            fetch_pages-more per_page list_repos left page collected seen repos listed more
            ∙ fetch_pages-firsts left (i + 1) (page + 1) (collected ++ firsts seen repos)
                (seen_after seen repos) (omega arith)
            ∙ rw
                (
                  split,
                  next,
                  firsts-append repos (take (left * per_page) (drop ((i + 1) * per_page) all_repos))
                      seen,
                )
                (ap done (
                  append_assoc collected (firsts seen repos) (
                    firsts (seen_after seen repos)
                      (take (left * per_page) (drop ((i + 1) * per_page) all_repos)))))
      ]

  -- The pages of a platform's list are collected into the repositories of its first 100 pages, each
  -- identifier (the clone address, or the full name where there is none) once, in the platform's
  -- order. Hypothesis: page i + 1 is the i-th slice of the list, of the page size.
  pub fetch_all-firsts :
      fetch_all_platform_repos per_page list_repos
      ≡ done (firsts [] (take (100 * per_page) all_repos))
  unfolding fetch_all_platform_repos
  fetch_all-firsts =
      let start : drop (0 * per_page) all_repos ≡ all_repos =
        let none_before : 0 * per_page ≡ 0 = omega arith in rw none_before refl in
      fetch_pages-firsts 100 0 1 [] [] refl ∙ rw start refl
