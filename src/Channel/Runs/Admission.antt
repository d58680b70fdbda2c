-- ===== src/Channel/Runs/Admission.antt =====
-- What a successful run has published, and what a divergent one lets in (service/mirror_service.go).
use git_sync_core.Prelude.{
  ℕ, ◌≡◌, refl, sym, ap, ◌∙◌, subst, Bool, true, false, String, Option, none, some, List, [], ◌∷◌,
  ◌++◌, All, arith, inl, inr, Text, if◌then◌else◌, ◌=ˢ◌, Option-cases, ◌≢◌,
}
use git_sync_core.Executor.Errors.{GoError}
use git_sync_core.Executor.Environment.{done, error}
use git_sync_core.Channel.Entities.{MirrorChannel, MirrorTarget, TagStatus, MirrorRun}
use git_sync_core.Channel.Tags.{split_tags}
use git_sync_core.Channel.Runs.{
  Publisher, Progress, Saved, record_result, publish_one, publish_tag, publish_tags, save,
  is_divergent_error, is_in_progress, RunInput, new_mirror_run, admit_run, check_run, check_kind,
  with_steps, publish_step, partly_failed, execute_publish, finish, execute, run_mode, begun,
}
use git_sync_core.Channel.Runs.Checks.{check_tags-idle, admit_run-checked, alone_idle}
use git_sync_core.Channel.Runs.Statuses.{Succeeded}
use git_sync_core.Channel.Runs.Results.{Live, ready, publish_tags-Sound, run_mode-Live}

abbrev Tagged : List Text → MirrorRun → Type 0
Tagged tags r = (sts : List TagStatus) × (r.tag_statuses ≡ some sts) × All (Succeeded sts) tags

module _ (P : Publisher) (ch : MirrorChannel) (t : MirrorTarget) (allow : Bool) where
  partly_failed-none :
      (stop : Option GoError) (p : Progress)
      → partly_failed P ch t allow stop p ≡ none
      → (stop ≡ none) × (p.failed ≡ 0) × (p.divergent ≡ 0)
  unfolding partly_failed
  partly_failed-none none p h = ground arith
  partly_failed-none (some e) p h = absurd (cc)

  publish-Tagged :
      (run : MirrorRun) (s : Saved P)
      → run.tag_statuses ≡ some []
      → (execute_publish P ch t allow run s).0 ≡ none
      → Tagged (split_tags run.tags) (execute_publish P ch t allow run s).1.0
  unfolding execute_publish
  publish-Tagged run s h n =
      let r = Publisher.ensure_repo P ch s.world in
      let q = Publisher.ensure_target_remote P t r.1 in
      elim (Option-cases r.0) [
        | inl e ↦ elim (Option-cases q.0) [
          | inl f ↦
              let st : Progress × Saved P = (ready P ch t allow run, record s { world = q.1 }) in
              let loop = publish_tags P ch t allow (split_tags run.tags) st in
              let go : execute_publish P ch t allow run s
                  ≡ (partly_failed P ch t allow loop.0 loop.1.0, (loop.1.0.run, loop.1.1)) =
                rw (e, f, execute_publish) refl in
              let failing : partly_failed P ch t allow loop.0 loop.1.0 ≡ none =
                ap (λ x. x.0) (sym go) ∙ n in
              let (stop, failed, divergent) = partly_failed-none loop.0 loop.1.0 failing in
              let (all_well, statuses) =
                publish_tags-Sound P ch t allow (split_tags run.tags) [] st ((λ f d. tt), h) stop in
              subst (λ x. Tagged (split_tags run.tags) x.1.0) (sym go)
                (loop.1.0.statuses, statuses, (all_well failed divergent).0)
          | inr (x, f) ↦ absurd (ground arith)
        ]
        | inr (x, e) ↦ absurd (ground arith)
      ]

  -- The state that `finish` gives a run with an error.
  abbrev Kept : String → Type 0
  Kept v = (if v =ˢ "running" then "failed" else v) ≡ "success"

  not_success : (v : String) → (v =ˢ "success") ≡ false → v ≢ "success"
  not_success v h e = let k = ap (λ (u : String). u =ˢ "success") e in ground (arith, k, h)

  finish-success :
      (started : ℕ) (err : Option GoError) (run : MirrorRun) (s : Saved P)
      → Live run
      → (finish P ch t allow started (err, (run, s))).status ≡ "success"
      → err ≡ none
  unfolding finish
  finish-success started none run s h e = refl
  finish-success started (some x) run s (inl h) e =
      absurd (not_success "failed" refl (subst Kept h e))
  finish-success started (some x) run s (inr h) e =
      absurd (not_success "divergent" refl (subst Kept h e))

  finish-statuses :
      (started : ℕ) (err : Option GoError) (run : MirrorRun) (s : Saved P)
      → (finish P ch t allow started (err, (run, s))).tag_statuses ≡ run.tag_statuses
  unfolding finish
  finish-statuses started none run s = refl
  finish-statuses started (some x) run s = refl

  -- Where a run of a publishing channel, as it was created, ends with the state `success`, every tag of
  -- its list has the status `success` in the row: no tag was refused, failed or left out.
  pub success_means_published :
      (run : MirrorRun) (s : Saved P)
      → ch.mode ≡ "publish"
      → run.tag_statuses ≡ some []
      → (execute P ch t allow run s).0.status ≡ "success"
      → (sts : List TagStatus) × ((execute P ch t allow run s).0.tag_statuses ≡ some sts)
        × All (Succeeded sts) (split_tags run.tags)
  unfolding execute run_mode save
  success_means_published run s mode fresh ok =
      let now = Publisher.now P s.world in
      let run1 = begun P ch t allow now run in
      let r = run_mode P ch t allow run1 (save P run1 s) in
      let live = run_mode-Live P ch t allow run1 (save P run1 s) (inl refl) in
      let go : r ≡ execute_publish P ch t allow run1 (save P run1 s) = rw mode refl in
      let no_error = finish-success now r.0 r.1.0 r.1.1 live ok in
      let (sts, has, all_well) =
        publish-Tagged run1 (save P run1 s) fresh (ap (λ x. x.0) (sym go) ∙ no_error) in
      (sts, finish-statuses now r.0 r.1.0 r.1.1 ∙ (ap (λ x. x.1.0.tag_statuses) go ∙ has), all_well)

-- The first tag whose content differs at the target gives the row a state that is not in progress, in
-- which it is saved while the other tags are still to be published: another run of the channel
-- is admitted next to it.
pub divergent_tag_admits_another :
    (P : Publisher) (ch : MirrorChannel) (t : MirrorTarget) (allow : Bool) (tag : Text)
    (p : Progress) (s : Saved P) (e : GoError) (id : ℕ) (other : Text) (target : ℕ)
    → (publish_one P ch t tag allow false s.world).0 ≡ error e
    → is_divergent_error e ≡ true
    → let r = publish_tag P ch t allow tag (p, s) in
      let req : RunInput = record {
        target_id = target;
        tags = other ∷ [];
        allow_overwrite = allow;
        kind = "";
      } in
      ((before : List MirrorRun) × (r.1.rows ≡ r.0.run ∷ before))
      × (is_in_progress r.0.run ≡ false)
      × ((admit_run none none id r.0.run.channel_id req (r.0.run ∷ [])).0
          ≡ done (new_mirror_run id r.0.run.channel_id "publish" req))
unfolding publish_tag save record_result check_run check_kind
divergent_tag_admits_another P ch t allow tag p s e id other target answer diverged =
    let state : (record_result tag p.steps (publish_one P ch t tag allow false s.world).0
          p).run.status
        ≡ "divergent" =
      rw (answer, diverged, record_result) refl in
    let run = (publish_tag P ch t allow tag (p, s)).0.run in
    let idle : is_in_progress run ≡ false = unfold is_in_progress in rw state refl in
    (
      (with_steps P ch t allow p (p.steps ++ (publish_step tag "running" [] ∷ [])) ∷ s.rows, refl),
      idle,
      admit_run-checked id run.channel_id
          (record { target_id = target; tags = other ∷ []; allow_overwrite = allow; kind = "" })
          "publish" (run ∷ [])
          (check_tags-idle "publish" run.channel_id (run ∷ []) other (alone_idle run idle)),
    )
