-- ===== src/Platforms/Sync/Laws.antt =====
-- What `SyncPlatformRepos` plans: the rows that it creates are new, and a row that it has refreshed is
-- not refreshed again.
use git_sync_core.Prelude.{
  ◌≡◌, refl, sym, ◌∙◌, Bool, true, false, String, Option, none, some, List, [], ◌∷◌, ◌++◌, is_empty,
  any, All, arith, Bool-cases, inl, inr, ◌=ˢ◌, eq_iff,
}
use git_sync_core.Prelude.TextLaws.{same_self}
use git_sync_core.Model.Entities.{Repo, Platform}
use git_sync_core.Platforms.Sync.{
  Seen, Plan, find_key, own_path, known, is_stale, refreshed, new_repo, replace_key, plan_one,
  plan_all,
}

is_stale-refreshed_cases :
    (s : Seen) (e : Repo) (unnamed headless : Bool)
    → (s.name =ˢ "") ≡ unnamed
    → is_empty s.default_branch ≡ headless
    → is_stale s (refreshed s e) ≡ false
unfolding is_stale refreshed
is_stale-refreshed_cases s e true true a b = simp (a, b, same_self) refl
is_stale-refreshed_cases s e true false a b = simp (a, b, same_self) refl
is_stale-refreshed_cases s e false true a b = simp (a, b, same_self) refl
is_stale-refreshed_cases s e false false a b = simp (a, b, same_self) refl

-- A row that was refreshed from what the platform says is not stale by the same answer: a second
-- synchronisation of an unchanged repository writes nothing.
pub is_stale-refreshed : (s : Seen) (e : Repo) → is_stale s (refreshed s e) ≡ false
is_stale-refreshed s e =
    is_stale-refreshed_cases s e (s.name =ˢ "") (is_empty s.default_branch) refl refl

is_stale-new_repo_cases :
    (platform : Platform) (s : Seen) (unnamed headless : Bool)
    → (s.name =ˢ "") ≡ unnamed
    → is_empty s.default_branch ≡ headless
    → is_stale s (new_repo platform s) ≡ false
unfolding is_stale new_repo
is_stale-new_repo_cases platform s true true a b = simp (a, b, same_self) refl
is_stale-new_repo_cases platform s true false a b = simp (a, b, same_self) refl
is_stale-new_repo_cases platform s false true a b = simp (a, b, same_self) refl
is_stale-new_repo_cases platform s false false a b = simp (a, b, same_self) refl

-- Nor is a row that was created from it.
pub is_stale-new_repo : (platform : Platform) (s : Seen) → is_stale s (new_repo platform s) ≡ false
is_stale-new_repo platform s =
    is_stale-new_repo_cases platform s (s.name =ˢ "") (is_empty s.default_branch) refl refl

abbrev pub is_taken : String → List Repo → Bool
is_taken key rs = any (λ (r : Repo). r.key =ˢ key) rs

find_key-free : (key : String) (rs : List Repo) → find_key key rs ≡ none → is_taken key rs ≡ false
unfolding find_key
find_key-free key [] h = refl
find_key-free key (r ∷ rs) h = elim (Bool-cases (r.key =ˢ key)) [
  | inl e ↦ let found : some r ≡ none = simp e at h in absurd (ground arith)
  | inr e ↦ simp e (find_key-free key rs (simp e at h))
]

is_taken-replace_key :
    (k key : String) (r' : Repo) (rs : List Repo)
    → r'.key ≡ key
    → is_taken k (replace_key key r' rs) ≡ is_taken k rs
unfolding replace_key
is_taken-replace_key k key r' [] e = refl
is_taken-replace_key k key r' (r ∷ rs) e = elim (Bool-cases (r.key =ˢ key)) [
  | inl g ↦
      let kept : r'.key ≡ r.key = e ∙ sym ((eq_iff r.key key).0 g) in
      simp (g, kept, is_taken-replace_key k key r' rs e) refl
  | inr g ↦ simp (g, is_taken-replace_key k key r' rs e) refl
]

known-free :
    (platform : Platform) (s : Seen) (existing : List Repo)
    → known s existing ≡ none
    → is_taken (new_repo platform s).key existing ≡ false
unfolding new_repo known
known-free platform s existing h = with_answer (find_key s.full_name existing) refl
  where
    with_answer :
        (answer : Option Repo)
        → find_key s.full_name existing ≡ answer
        → is_taken (new_repo platform s).key existing ≡ false
    with_answer (some e) a =
        let found : some e ≡ none = simp (known, a) at h in absurd (ground arith)
    with_answer none a = elim (Bool-cases (s.full_name =ˢ "")) [
      | inl g ↦ simp g (find_key-free (own_path s) existing (simp (known, a, g) at h))
      | inr g ↦ simp g (find_key-free s.full_name existing a)
    ]

-- What a plan keeps of the rows that it started from.
StartsFrom : List Repo → Plan → Type 0
StartsFrom start plan =
    ((key : String) → is_taken key plan.existing ≡ is_taken key start)
    × All (λ (r : Repo). is_taken r.key start ≡ false) plan.to_create

All-snoc : (P : Repo → Type 0) (rs : List Repo) (r : Repo) → All P rs → P r → All P (rs ++ (r ∷ []))
All-snoc P [] r all p = (p, tt)
All-snoc P (r' ∷ rs) r all p = (all.0, All-snoc P rs r all.1 p)

plan_one-StartsFrom :
    (platform : Platform) (s : Seen) (start : List Repo) (plan : Plan)
    → StartsFrom start plan
    → StartsFrom start (plan_one platform s plan)
unfolding StartsFrom plan_one refreshed
plan_one-StartsFrom platform s start plan from = with_answer (known s plan.existing) refl
  where
    with_answer :
        (answer : Option Repo)
        → known s plan.existing ≡ answer
        → StartsFrom start (plan_one platform s plan)
    with_answer none a =
        simp (plan_one, a)
          (
            from.0,
            All-snoc (λ r. is_taken r.key start ≡ false) plan.to_create (new_repo platform s) from.1
                (sym (from.0 (new_repo platform s).key) ∙ known-free platform s plan.existing a),
          )
    with_answer (some e) a = elim (Bool-cases (is_stale s e)) [
      | inl stale ↦
          simp (plan_one, a, stale)
            (
              (λ key.
                  is_taken-replace_key key e.key (refreshed s e) plan.existing refl ∙ from.0 key),
              from.1,
            )
      | inr current ↦ simp (plan_one, a, current) from
    ]

plan_all-StartsFrom :
    (platform : Platform) (ss : List Seen) (start : List Repo) (plan : Plan)
    → StartsFrom start plan
    → StartsFrom start (plan_all platform ss plan)
unfolding plan_all
plan_all-StartsFrom platform [] start plan from = from
plan_all-StartsFrom platform (s ∷ ss) start plan from =
    plan_all-StartsFrom platform ss start (plan_one platform s plan)
      (plan_one-StartsFrom platform s start plan from)

-- No row that the loop plans to create has the key of a row that was loaded before it. (Where loading
-- fails, no row counts as loaded.)
pub created_are_new :
    (platform : Platform) (ss : List Seen) (rows : List Repo)
    → All
        (λ (r : Repo). is_taken r.key rows ≡ false)
        (plan_all platform ss
          (record { existing = rows; to_update = []; to_create = [] })).to_create
unfolding StartsFrom
created_are_new platform ss rows =
    (plan_all-StartsFrom platform ss rows
      (record { existing = rows; to_update = []; to_create = [] }) ((λ key. refl), tt)).1
