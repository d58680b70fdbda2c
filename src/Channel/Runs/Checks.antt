-- ===== src/Channel/Runs/Checks.antt =====
-- When a run of a channel is admitted (`ExecuteMirrorRun` of service/mirror_service.go).
use git_sync_core.Prelude.{
  ℕ, ◌≡◌, refl, subst, true, false, ◌||◌, String, Option, none, some, List, [], ◌∷◌, ◌++◌, arith,
  Bool-cases, inl, inr, Text, if◌then◌else◌, ◌=ˢ◌, ==_iff, ◌==◌, ◌&&◌, ◌+◌,
}
use git_sync_core.Executor.Errors.{GoError}
use git_sync_core.Executor.Environment.{Outcome, done, error}
use git_sync_core.Channel.Entities.{MirrorRun}
use git_sync_core.Channel.Runs.{
  is_in_progress, has_running, RunInput, new_mirror_run, admit_run, check_run, check_kind,
  check_tags, create_run,
}

-- What an answer of the check says of the rows.
abbrev Clears : (channel : ℕ) → List MirrorRun → Outcome String → Type 0
Clears channel rows (error e) = Unit
Clears channel rows (done kind) = has_running channel rows ≡ false

check_tags-Clears :
    (kind : String) (querying : Option GoError) (channel : ℕ) (rows : List MirrorRun)
    (tags : List Text)
    → Clears channel rows (check_tags kind querying channel rows tags)
unfolding check_tags
check_tags-Clears kind querying channel rows [] = tt
check_tags-Clears kind (some e) channel rows (t ∷ ts) = tt
check_tags-Clears kind none channel rows (t ∷ ts) = elim (Bool-cases (has_running channel rows)) [
  | inl busy ↦ rw (busy, check_tags) tt
  | inr idle ↦ rw (idle, check_tags) idle
]

check_run-Clears :
    (querying : Option GoError) (channel : ℕ) (req : RunInput) (rows : List MirrorRun)
    → Clears channel rows (check_run querying channel req rows)
unfolding check_run check_kind
check_run-Clears querying channel req rows =
    let kind = if req.kind =ˢ "" then "publish" else req.kind in
    elim (Bool-cases ((kind =ˢ "publish") || (kind =ˢ "verify"))) [
      | inl known ↦ rw (known, check_kind) (check_tags-Clears kind querying channel rows req.tags)
      | inr unknown ↦ rw (unknown, check_kind) tt
    ]

busy_is_refused :
    (querying : Option GoError) (channel : ℕ) (req : RunInput) (rows : List MirrorRun)
    (answer : Outcome String)
    → check_run querying channel req rows ≡ answer
    → has_running channel rows ≡ true
    → (e : GoError) × (answer ≡ error e)
busy_is_refused querying channel req rows (error e) h busy = (e, refl)
busy_is_refused querying channel req rows (done kind) h busy =
    let idle : has_running channel rows ≡ false =
      subst (Clears channel rows) h (check_run-Clears querying channel req rows) in
    absurd (ground arith)

new_run-in_progress :
    (id channel : ℕ) (kind : String) (req : RunInput) (newer rows : List MirrorRun)
    → has_running channel (newer ++ (new_mirror_run id channel kind req ∷ rows)) ≡ true
unfolding has_running is_in_progress new_mirror_run
new_run-in_progress id channel kind req [] rows = ground (arith, ==_iff channel channel)
new_run-in_progress id channel kind req (r ∷ newer) rows =
    ground (arith, new_run-in_progress id channel kind req newer rows)

pub check_tags-idle :
    (kind : String) (channel : ℕ) (rows : List MirrorRun) (t : Text)
    → has_running channel rows ≡ false
    → check_tags kind none channel rows (t ∷ []) ≡ done kind
unfolding check_tags
check_tags-idle kind channel rows t idle = rw (idle, check_tags) refl

pub admit_run-checked :
    (id channel : ℕ) (req : RunInput) (kind : String) (rows : List MirrorRun)
    → check_run none channel req rows ≡ done kind
    → (admit_run none none id channel req rows).0 ≡ done (new_mirror_run id channel kind req)
unfolding admit_run create_run
admit_run-checked id channel req kind rows h = rw (admit_run, h) refl

pub alone_idle :
    (r : MirrorRun) → is_in_progress r ≡ false → has_running r.channel_id (r ∷ []) ≡ false
unfolding has_running
alone_idle r h = ground arith

-- A run is created only by a call whose check found no run of its channel in progress. Once its row
-- stands, with whatever rows are added after it, every later check for the channel is refused,
-- until the row's state is changed.
pub later_checks_are_refused :
    (querying creating querying' : Option GoError) (id channel : ℕ) (req other : RunInput)
    (kind : String) (checked rows newer : List MirrorRun) (r : MirrorRun)
    → check_run querying channel req checked ≡ done kind
    → (create_run creating id channel req kind rows).0 ≡ done r
    → (has_running channel checked ≡ false)
      × ((e : GoError) × (check_run querying' channel other
              (newer ++ (create_run creating id channel req kind rows).1)
            ≡ error e))
unfolding create_run
later_checks_are_refused querying (some x) querying' id channel req other kind checked rows newer r
      h c =
    absurd (ground arith)
later_checks_are_refused querying none querying' id channel req other kind checked rows newer r h
      c =
    (
      subst (Clears channel checked) h (check_run-Clears querying channel req checked),
      busy_is_refused querying' channel other (newer ++ (new_mirror_run id channel kind req ∷ rows))
          (check_run querying' channel other (newer ++ (new_mirror_run id channel kind req ∷ rows)))
          refl (new_run-in_progress id channel kind req newer rows),
    )

-- How many runs of a channel are in progress.
unfoldable pub running_of : ℕ → List MirrorRun → ℕ
running_of channel [] = 0
running_of channel (r ∷ rs) =
    (if (r.channel_id == channel) && is_in_progress r then 1 else 0) + running_of channel rs

none_running :
    (channel : ℕ) (rows : List MirrorRun)
    → has_running channel rows ≡ false
    → running_of channel rows ≡ 0
unfolding has_running running_of
none_running channel [] h = refl
none_running channel (r ∷ rs) h = ground (arith, none_running channel rs)

-- Nothing keeps a second call out between the check of a call and its row: where two calls for a
-- channel have both made their checks before either creates its row, and both checks pass, both
-- runs are created, and two runs of the channel are in progress where there was none.
pub checks_first_admit_both :
    (id id' channel : ℕ) (req req' : RunInput) (kind kind' : String) (rows : List MirrorRun)
    → check_run none channel req rows ≡ done kind
    → check_run none channel req' rows ≡ done kind'
    → let first = create_run none id channel req kind rows in
      let second = create_run none id' channel req' kind' first.1 in
      (running_of channel rows ≡ 0)
      × ((r : MirrorRun) × (first.0 ≡ done r))
      × ((r : MirrorRun) × (second.0 ≡ done r))
      × (running_of channel second.1 ≡ 2)
unfolding create_run running_of is_in_progress new_mirror_run
checks_first_admit_both id id' channel req req' kind kind' rows h h' =
    let idle : has_running channel rows ≡ false =
      subst (Clears channel rows) h (check_run-Clears none channel req rows) in
    let nothing : running_of channel rows ≡ 0 = none_running channel rows idle in
    (
      nothing,
      (new_mirror_run id channel kind req, refl),
      (new_mirror_run id' channel kind' req', refl),
      ground (arith, ==_iff channel channel, nothing),
    )
