-- ===== src/Platforms/Sync/Rounds.antt =====
-- One round of the plan: what it does to the rows that are asked for.
use git_sync_core.Prelude.{
  ◌≡◌, refl, sym, ap, ◌∙◌, subst, true, false, String, Option, none, some, List, [], ◌∷◌, ◌++◌,
  Bool-cases, inl, inr, ◌=ˢ◌, eq_iff,
}
use mathlib.Core.List.{append_assoc}
use git_sync_core.Model.Entities.{Repo, Platform}
use git_sync_core.Platforms.Sync.{
  Seen, Plan, find_key, known, is_stale, refreshed, new_repo, replace_key, plan_one,
}
use git_sync_core.Platforms.Sync.Keys.{
  find_key-append-some, find_key-append-none, find_key-append_ap, find_key-snoc_other,
  find_key-snoc_own, find_key-key, find_key-replace_other, find_key-replace_own,
}
use git_sync_core.Platforms.Sync.Laws.{is_stale-refreshed, is_stale-new_repo}

-- The rows that a plan asks for.
abbrev pub view : Plan → List Repo
view plan = plan.existing ++ plan.to_create

unfoldable pub Settled : List Repo → Seen → Type 0
Settled rows s = (e : Repo) × (find_key s.full_name rows ≡ some e) × (is_stale s e ≡ false)

unfoldable pub Differs : Seen → Seen → Type 0
Differs s t = (s.full_name =ˢ t.full_name) ≡ false

unfoldable pub IsNamed : Seen → Type 0
IsNamed s = (s.full_name =ˢ "") ≡ false

module _ (platform : Platform) (s : Seen) (named : IsNamed s) where
  pub known_named : (rows : List Repo) → known s rows ≡ find_key s.full_name rows
  unfolding known IsNamed
  known_named rows = with_answer (find_key s.full_name rows) refl
    where
      with_answer :
          (answer : Option Repo)
          → find_key s.full_name rows ≡ answer
          → known s rows ≡ find_key s.full_name rows
      with_answer none a = simp (known, a, named) refl
      with_answer (some e) a = simp (known, a) refl

  new_key : (new_repo platform s).key ≡ s.full_name
  unfolding new_repo IsNamed
  new_key = rw named refl

  plan_one-none :
      (plan : Plan)
      → find_key s.full_name plan.existing ≡ none
      → plan_one platform s plan
        ≡ record plan { to_create = plan.to_create ++ (new_repo platform s ∷ []) }
  unfolding plan_one
  plan_one-none plan a =
      let k : known s plan.existing ≡ none = known_named plan.existing ∙ a in rw (plan_one, k) refl

  plan_one-stale :
      (plan : Plan) (e : Repo)
      → find_key s.full_name plan.existing ≡ some e
      → is_stale s e ≡ true
      → plan_one platform s plan ≡ record plan {
        existing = replace_key e.key (refreshed s e) plan.existing;
        to_update = plan.to_update ++ (e.key ∷ []);
      }
  unfolding plan_one
  plan_one-stale plan e a stale =
      let k : known s plan.existing ≡ some e = known_named plan.existing ∙ a in
      rw (plan_one, k, stale) refl

  pub plan_one-current :
      (plan : Plan) (e : Repo)
      → find_key s.full_name plan.existing ≡ some e
      → is_stale s e ≡ false
      → plan_one platform s plan ≡ plan
  unfolding plan_one
  plan_one-current plan e a current =
      let k : known s plan.existing ≡ some e = known_named plan.existing ∙ a in
      rw (plan_one, k, current) refl

  -- The three outcomes of a round.
  by_outcome :
      (P : Plan → Type 0) (plan : Plan)
      → (find_key s.full_name plan.existing ≡ none
          → P (record plan { to_create = plan.to_create ++ (new_repo platform s ∷ []) }))
      → ((e : Repo)
          → find_key s.full_name plan.existing ≡ some e
          → is_stale s e ≡ true
          → P (record plan {
            existing = replace_key e.key (refreshed s e) plan.existing;
            to_update = plan.to_update ++ (e.key ∷ []);
          }))
      → ((e : Repo) → find_key s.full_name plan.existing ≡ some e → is_stale s e ≡ false → P plan)
      → P (plan_one platform s plan)
  by_outcome P plan created stale_case current_case =
      with_answer (find_key s.full_name plan.existing) refl
    where
      with_answer :
          (answer : Option Repo)
          → find_key s.full_name plan.existing ≡ answer
          → P (plan_one platform s plan)
      with_answer none a = subst P (sym (plan_one-none plan a)) (created a)
      with_answer (some e) a = elim (Bool-cases (is_stale s e)) [
        | inl stale ↦ subst P (sym (plan_one-stale plan e a stale)) (stale_case e a stale)
        | inr current ↦ subst P (sym (plan_one-current plan e a current)) (current_case e a current)
      ]

  pub others_kept :
      (plan : Plan) (t : Seen)
      → Differs s t
      → find_key t.full_name (view (plan_one platform s plan)) ≡ find_key t.full_name (view plan)
  unfolding Differs refreshed
  others_kept plan t d =
      by_outcome (λ p. find_key t.full_name (view p) ≡ find_key t.full_name (view plan)) plan
        (λ a.
          sym (
            ap (find_key t.full_name)
              (append_assoc plan.existing plan.to_create (new_repo platform s ∷ [])))
          ∙ find_key-snoc_other t.full_name (view plan) (new_repo platform s) (rw new_key d))
        (λ e a stale.
          let own : e.key ≡ s.full_name =
            (eq_iff e.key s.full_name).0 (find_key-key s.full_name plan.existing e a) in
          find_key-append_ap t.full_name (replace_key e.key (refreshed s e) plan.existing)
            plan.existing plan.to_create
            (find_key-replace_other t.full_name e.key (refreshed s e) plan.existing refl
              (rw own d)))
        (λ e a current. refl)

  pub created_kept :
      (plan : Plan) (t : Seen)
      → Differs s t
      → find_key t.full_name (plan_one platform s plan).to_create
        ≡ find_key t.full_name plan.to_create
  unfolding Differs
  created_kept plan t d =
      by_outcome (λ p. find_key t.full_name p.to_create ≡ find_key t.full_name plan.to_create) plan
        (λ a. find_key-snoc_other t.full_name plan.to_create (new_repo platform s) (rw new_key d))
        (λ e a stale. refl) (λ e a current. refl)

  pub round_settles :
      (plan : Plan)
      → find_key s.full_name plan.to_create ≡ none
      → Settled (view (plan_one platform s plan)) s
  unfolding Settled refreshed
  round_settles plan free =
      by_outcome (λ p. Settled (view p) s) plan
        (λ a. (
          new_repo platform s,
          sym (
                ap (find_key s.full_name)
                  (append_assoc plan.existing plan.to_create (new_repo platform s ∷ [])))
              ∙ find_key-snoc_own s.full_name (view plan) (new_repo platform s)
                  (find_key-append-none s.full_name plan.existing plan.to_create a ∙ free)
                  ((eq_iff (new_repo platform s).key s.full_name).1 new_key),
          is_stale-new_repo platform s,
        ))
        (λ e a stale.
          let own : e.key ≡ s.full_name =
            (eq_iff e.key s.full_name).0 (find_key-key s.full_name plan.existing e a) in
          (
            refreshed s e,
            find_key-append-some s.full_name (replace_key e.key (refreshed s e) plan.existing)
                plan.to_create (refreshed s e)
                (subst
                  (λ (k : String).
                    find_key s.full_name (replace_key k (refreshed s e) plan.existing)
                    ≡ some (refreshed s e))
                  (sym own)
                  (find_key-replace_own s.full_name (refreshed s e) plan.existing e a
                    (find_key-key s.full_name plan.existing e a))),
            is_stale-refreshed s e,
          ))
        (λ e a current.
          (e, find_key-append-some s.full_name plan.existing plan.to_create e a, current))
