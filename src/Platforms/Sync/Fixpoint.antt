-- ===== src/Platforms/Sync/Fixpoint.antt =====
-- A synchronisation settles: planned again over the rows that it asks for, the same answer of the
-- platform asks for nothing.
use git_sync_core.Prelude.{
  ◌≡◌, refl, ◌∙◌, true, none, List, [], ◌∷◌, ◌++◌, All, arith, Bool-cases, inl, inr, eq_iff, ◌=ˢ◌,
}
use git_sync_core.Model.Entities.{Repo, Platform}
use git_sync_core.Platforms.Sync.{Seen, Plan, find_key, plan_one, plan_all}
use git_sync_core.Platforms.Sync.Rounds.{
  view, Settled, Differs, IsNamed, others_kept, created_kept, round_settles, plan_one-current,
}

-- The full names are there and are all different.
abbrev pub DistinctNames : List Seen → Type 0
DistinctNames [] = Unit
DistinctNames (s ∷ ss) = IsNamed s × All (Differs s) ss × DistinctNames ss

abbrev asking_nothing : List Repo → Plan
asking_nothing rows = record { existing = rows; to_update = []; to_create = [] }

Absent : List Repo → Seen → Type 0
Absent rows s = find_key s.full_name rows ≡ none

Differs-sym : (s t : Seen) → Differs s t → Differs t s
unfolding Differs
Differs-sym s t d = elim (Bool-cases (t.full_name =ˢ s.full_name)) [
  | inl g ↦
      let one : t.full_name ≡ s.full_name = (eq_iff t.full_name s.full_name).0 g in
      let equal : (s.full_name =ˢ t.full_name) ≡ true =
        rw one ((eq_iff s.full_name s.full_name).1 refl) in
      absurd (ground arith)
  | inr g ↦ g
]

All-Differs-sym : (s : Seen) (ts : List Seen) → All (Differs s) ts → All (λ t. Differs t s) ts
All-Differs-sym s [] d = tt
All-Differs-sym s (t ∷ ts) d = (Differs-sym s t d.0, All-Differs-sym s ts d.1)

plan_one-Absent :
    (platform : Platform) (s : Seen) (named : IsNamed s) (plan : Plan) (ts : List Seen)
    → All (Differs s) ts
    → All (Absent plan.to_create) ts
    → All (Absent (plan_one platform s plan).to_create) ts
unfolding Absent
plan_one-Absent platform s named plan [] d a = tt
plan_one-Absent platform s named plan (t ∷ ts) d a = (
  created_kept platform s named plan t d.0 ∙ a.0,
  plan_one-Absent platform s named plan ts d.1 a.1,
)

-- A repository that the rest of the list does not name keeps its row.
kept_to_the_end :
    (platform : Platform) (ss : List Seen) (plan : Plan) (t : Seen)
    → DistinctNames ss
    → All (λ s. Differs s t) ss
    → find_key t.full_name (view (plan_all platform ss plan)) ≡ find_key t.full_name (view plan)
unfolding plan_all
kept_to_the_end platform [] plan t names d = refl
kept_to_the_end platform (s ∷ ss) plan t names d =
    kept_to_the_end platform ss (plan_one platform s plan) t names.2 d.1
    ∙ others_kept platform s names.0 plan t d.0

plan_all-Settled :
    (platform : Platform) (ss : List Seen) (plan : Plan)
    → DistinctNames ss
    → All (Absent plan.to_create) ss
    → All (Settled (view (plan_all platform ss plan))) ss
unfolding plan_all Settled Absent
plan_all-Settled platform [] plan names a = tt
plan_all-Settled platform (s ∷ ss) plan names a =
    let (e, found, current) = round_settles platform s names.0 plan a.0 in
    (
      (
        e,
        kept_to_the_end platform ss (plan_one platform s plan) s names.2
              (All-Differs-sym s ss names.1)
            ∙ found,
        current,
      ),
      plan_all-Settled platform ss (plan_one platform s plan) names.2
          (plan_one-Absent platform s names.0 plan ss names.1 a.1),
    )

plan_all-fixed :
    (platform : Platform) (ss : List Seen) (rows : List Repo)
    → DistinctNames ss
    → All (Settled rows) ss
    → plan_all platform ss (asking_nothing rows) ≡ asking_nothing rows
unfolding plan_all Settled
plan_all-fixed platform [] rows names settled = refl
plan_all-fixed platform (s ∷ ss) rows names settled =
    let (e, found, current) = settled.0 in
    let same_plan = plan_one-current platform s names.0 (asking_nothing rows) e found current in
    rw same_plan (plan_all-fixed platform ss rows names.2 settled.1)

All-Absent : (ss : List Seen) → All (Absent []) ss
unfolding Absent find_key
All-Absent [] = tt
All-Absent (s ∷ ss) = (refl, All-Absent ss)

-- Planned again over the rows that the first plan asks for (those of the table, the stale ones
-- refreshed, and the new ones), the same answer of the platform asks for no update and no new row.
-- Hypothesis: the repositories' full names are not empty and differ from each other.
pub second_sync_asks_nothing :
    (platform : Platform) (ss : List Seen) (rows : List Repo)
    → DistinctNames ss
    → let first =
        plan_all platform ss (record { existing = rows; to_update = []; to_create = [] }) in
      let wanted = first.existing ++ first.to_create in
      plan_all platform ss (record { existing = wanted; to_update = []; to_create = [] })
      ≡ record { existing = wanted; to_update = []; to_create = [] }
second_sync_asks_nothing platform ss rows names =
    plan_all-fixed platform ss (view (plan_all platform ss (asking_nothing rows))) names
      (plan_all-Settled platform ss (asking_nothing rows) names (All-Absent ss))
