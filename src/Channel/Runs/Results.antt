-- ===== src/Channel/Runs/Results.antt =====
-- How a run ends, and when the next one is admitted (service/mirror_service.go).
use git_sync_core.Prelude.{
  ℕ, ◌≡◌, refl, sym, ap, ◌∙◌, subst, Bool, false, Option, none, some, List, [], ◌∷◌, All, arith,
  Bool-cases, inl, inr, ◌⊎◌, Text, ◌=ˢ◌, Option-cases,
}
use git_sync_core.Executor.Errors.{GoError}
use git_sync_core.Executor.Environment.{Outcome, done, error}
use git_sync_core.Channel.Entities.{MirrorChannel, MirrorTarget, MirrorStep, MirrorRun}
use git_sync_core.Channel.Tags.{split_tags}
use git_sync_core.Channel.Runs.{
  Publisher, Published, Progress, Saved, record_result, publish_one, publish_tag, publish_tags,
  save, is_divergent_error, is_in_progress, prepared, execute_publish, finish, execute, run_mode,
  begun,
}
use git_sync_core.Channel.Runs.Statuses.{Succeeded, AllWell, record_result-AllWell}

abbrev pub Live : MirrorRun → Type 0
Live r = (r.status ≡ "running") ⊎ (r.status ≡ "divergent")

record_result-Live :
    (tag : Text) (before : List MirrorStep) (r : Outcome Published) (p : Progress)
    → Live p.run
    → Live (record_result tag before r p).run
unfolding record_result
record_result-Live tag before (done x) p h = h
record_result-Live tag before (error e) p h = elim (Bool-cases (is_divergent_error e)) [
  | inl g ↦ rw (g, record_result) (inr refl)
  | inr g ↦ rw (g, record_result) h
]

module _ (P : Publisher) (ch : MirrorChannel) (t : MirrorTarget) (allow : Bool) where
  publish_tag-Live :
      (tag : Text) (st : Progress × Saved P)
      → Live st.0.run
      → Live (publish_tag P ch t allow tag st).0.run
  unfolding publish_tag save
  publish_tag-Live tag (p, s) h =
      record_result-Live tag p.steps (publish_one P ch t tag allow false s.world).0 p h

  pub publish_tags-Live :
      (tags : List Text) (st : Progress × Saved P)
      → Live st.0.run
      → Live (publish_tags P ch t allow tags st).1.0.run
  unfolding publish_tags
  publish_tags-Live [] st h = h
  publish_tags-Live (tag ∷ tags) st h = elim (Option-cases (Publisher.cancelled P st.1.world)) [
    | inl e ↦
        rw (e, publish_tags)
          (publish_tags-Live tags (publish_tag P ch t allow tag st) (publish_tag-Live tag st h))
    | inr (x, e) ↦ rw (e, publish_tags) h
  ]

  -- What the rounds keep: nothing failed means that all went well, and the row has the statuses.
  abbrev pub Sound : List Text → Progress → Type 0
  Sound seen p = AllWell seen p × (p.run.tag_statuses ≡ some p.statuses)

  publish_tag-Sound :
      (tag : Text) (seen : List Text) (st : Progress × Saved P)
      → Sound seen st.0
      → Sound (tag ∷ seen) (publish_tag P ch t allow tag st).0
  unfolding publish_tag save
  publish_tag-Sound tag seen (p, s) (h, _) = (
    record_result-AllWell tag p.steps (publish_one P ch t tag allow false s.world).0 seen p h,
    refl,
  )

  publish_tags-next :
      (tag : Text) (tags : List Text) (st : Progress × Saved P)
      → Publisher.cancelled P st.1.world ≡ none
      → publish_tags P ch t allow (tag ∷ tags) st
        ≡ publish_tags P ch t allow tags (publish_tag P ch t allow tag st)
  unfolding publish_tags
  publish_tags-next tag tags st e = rw (e, publish_tags) refl

  abbrev pub After : List Text → List Text → Option GoError × (Progress × Saved P) → Type 0
  After tags seen r =
      (r.1.0.failed ≡ 0
        → r.1.0.divergent ≡ 0
        → All (Succeeded r.1.0.statuses) tags × All (Succeeded r.1.0.statuses) seen)
      × (r.1.0.run.tag_statuses ≡ some r.1.0.statuses)

  pub publish_tags-Sound :
      (tags seen : List Text) (st : Progress × Saved P)
      → Sound seen st.0
      → (publish_tags P ch t allow tags st).0 ≡ none
      → After tags seen (publish_tags P ch t allow tags st)
  unfolding publish_tags
  publish_tags-Sound [] seen st (h, e) n = ((λ f d. (tt, h f d)), e)
  publish_tags-Sound (tag ∷ tags) seen st h n =
      elim (Option-cases (Publisher.cancelled P st.1.world)) [
        | inl e ↦
            let go = publish_tags-next tag tags st e in
            let (all_well, statuses) =
              publish_tags-Sound tags (tag ∷ seen) (publish_tag P ch t allow tag st)
                (publish_tag-Sound tag seen st h) (ap (λ r. r.0) (sym go) ∙ n) in
            subst (After (tag ∷ tags) seen) (sym go) (
              (λ f d. let (later, (now, before)) = all_well f d in ((now, later), before)),
              statuses,
            )
        | inr (x, e) ↦ absurd (ground arith)
      ]

  abbrev pub ready : MirrorRun → Progress
  ready run = prepared P ch t allow run

  pub publish-Live :
      (run : MirrorRun) (s : Saved P) → Live run → Live (execute_publish P ch t allow run s).1.0
  unfolding execute_publish
  publish-Live run s h =
      let r = Publisher.ensure_repo P ch s.world in
      let q = Publisher.ensure_target_remote P t r.1 in
      elim (Option-cases r.0) [
        | inl e ↦ elim (Option-cases q.0) [
          | inl f ↦
              rw (e, f, execute_publish)
                (publish_tags-Live (split_tags run.tags) (ready run, record s { world = q.1 }) h)
          | inr (x, f) ↦ rw (e, f, execute_publish) h
        ]
        | inr (x, e) ↦ rw (e, execute_publish) h
      ]

  finish-done :
      (started : ℕ) (err : Option GoError) (run : MirrorRun) (s : Saved P)
      → Live run
      → (is_in_progress (finish P ch t allow started (err, (run, s))) ≡ false)
        × ((finish P ch t allow started (err, (run, s))).finished_at
            ≡ some (Publisher.now P s.world))
  unfolding finish is_in_progress
  finish-done started none run s (inl h) = rw h (refl, refl)
  finish-done started none run s (inr h) = rw h (refl, refl)
  finish-done started (some e) run s (inl h) = rw h (refl, refl)
  finish-done started (some e) run s (inr h) = rw h (refl, refl)

  pub run_mode-Live :
      (run : MirrorRun) (s : Saved P) → Live run → Live (run_mode P ch t allow run s).1.0
  unfolding run_mode
  run_mode-Live run s h = elim (Bool-cases (ch.mode =ˢ "publish")) [
    | inl e ↦ rw (e, run_mode) (publish-Live run s h)
    | inr e ↦ elim (Bool-cases (ch.mode =ˢ "backup")) [
      | inl f ↦ rw (e, f, run_mode) h
      | inr f ↦ rw (e, f, run_mode) h
    ]
  ]

  -- A run that is executed, in whatever mode and with whatever answers, ends in the row that it saves
  -- last; that row is no longer in progress and has a time at which it was finished.
  pub executed_run_ends :
      (run : MirrorRun) (s : Saved P)
      → let r = execute P ch t allow run s in
        (is_in_progress r.0 ≡ false)
        × ((time : ℕ) × (r.0.finished_at ≡ some time))
        × ((before : List MirrorRun) × (r.1.rows ≡ r.0 ∷ before))
  unfolding execute save
  executed_run_ends run s =
      let now = Publisher.now P s.world in
      let run1 = begun P ch t allow now run in
      let r = run_mode P ch t allow run1 (save P run1 s) in
      let (ended, time) =
        finish-done now r.0 r.1.0 r.1.1 (run_mode-Live run1 (save P run1 s) (inl refl)) in
      (ended, (Publisher.now P r.1.1.world, time), (r.1.1.rows, refl))
