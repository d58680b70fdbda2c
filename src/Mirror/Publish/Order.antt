-- ===== src/Mirror/Publish/Order.antt =====
-- What comes before a push: every push of `Publish` follows a comparison that clears it, and that one a
-- gate that was passed.
use git_sync_core.Prelude.{
  ℕ, Bool, true, false, ◌≡◌, refl, sym, subst, ◌⊎◌, inl, inr, none, some, List, [], ◌∷◌, ◌++◌, Text,
  codes, same, contains, arith, Option-cases, Bool-cases, if◌then◌else◌,
}
use git_sync_core.Executor.Errors.{GoError}
use git_sync_core.Executor.Environment.{Outcome, done, error}
use git_sync_core.Mirror.Names.{validate_name, push_specs}
use git_sync_core.Mirror.Host.{
  auth_method, AuthMethod, Options, TagReport, PushOptions, remote_of, validate_options, bad_tag,
  Host, CompareResult, compare_mismatched, Compared, Event, gate_passed, compared, pushed,
}
use git_sync_core.Mirror.Tree.{Hash, Commit, rewrite_tree}
use git_sync_core.Mirror.Tree.Refines.{Outcome-cases}
use git_sync_core.Mirror.Materialize.{materialize_tree}
use git_sync_core.Mirror.GoMod.{read_module_path}
use git_sync_core.Mirror.Compare.{
  refusal, resolve_ref_commit, remote_url, go_git_auth, disk, store, Run, Step, note, in_temp,
  check_remote_tag, compare_listed, compare_fetched, compare_commit, gate_result,
}
use git_sync_core.Mirror.Publish.{
  verify_cmd, push_options, push_refs, set_reference, publish_objects, synthesize_and_push, release,
  decide, compare_and_release, pass_gate, build_and_release, rewrite_and_release, with_commit,
  with_module_path, publish, in_work_repo, with_auth, with_url, publish_tag, publish_tags,
  publish_all,
}

abbrev is_mismatched : CompareResult → Bool
is_mismatched compare_mismatched = true
is_mismatched other = false

module _ (H : Host) (opts : Options) where
  -- What lets a push through: leave to overwrite, a comparison without a difference, or an error whose
  -- message has the word `empty` in it.
  abbrev pub Cleared : Compared → Type 0
  Cleared k =
      (opts.allow_overwrite ≡ true)
      ⊎ (((k.problem ≡ none) × (is_mismatched k.result ≡ false))
          ⊎ ((e : GoError) × (k.problem ≡ some e) × (contains e.message (codes "empty") ≡ true)))

  -- The push is of one accepted tag, in a real run.
  abbrev pub Pushable : PushOptions → Type 0
  Pushable o =
      (tag : Text) × (validate_name (codes "tag") tag ≡ none)
      × (o.ref_specs ≡ push_specs tag)
      × (o.remote ≡ remote_of opts)
      × (opts.dry_run ≡ false)

  abbrev pub Prepared : List Event → Type 0
  Prepared (compared k ∷ (gate_passed build ∷ rest)) = Cleared k
  Prepared other = ⊥

  abbrev pub Orderly : List Event → Type 0
  Orderly [] = Unit
  Orderly (pushed o problem ∷ rest) = Pushable o × Prepared rest × Orderly rest
  Orderly (e ∷ rest) = Orderly rest

  abbrev Keeps : {A : Type 0} → Outcome A × Run H → Type 0
  Keeps (r, s) = Orderly s.trace

  overwrote_allowed :
      (auth : AuthMethod) (tag : Text) (h : Hash) (w : Host.World H)
      → (check_remote_tag H opts auth tag h w).0.overwrote ≡ true
      → opts.allow_overwrite ≡ true
  unfolding check_remote_tag compare_listed compare_fetched compare_commit
  overwrote_allowed auth tag h w e = ground arith

  refusal-Cleared :
      (tag : Text) (k : Compared)
      → refusal opts.allow_overwrite tag k ≡ none
      → (k.overwrote ≡ true → opts.allow_overwrite ≡ true)
      → Cleared k
  unfolding refusal
  refusal-Cleared tag k e over = elim (Bool-cases opts.allow_overwrite) [
    | inl allowed ↦ inl allowed
    | inr strict ↦ inr (elim (Option-cases k.problem) [
      | inl fine ↦ inl (fine, ground (arith, over))
      | inr (x, failed) ↦ inr (x, failed, ground (arith, over))
    ])
  ]

  -- A temporary directory makes no difference.
  in_temp-Keeps :
      {A : Type 0} (pattern : Text) (next : Text → Step H A)
      → ((path : Text) (s : Run H) → Orderly s.trace → Keeps (next path s))
      → (s : Run H) → Orderly s.trace
      → Keeps (in_temp H pattern next s)
  unfolding in_temp note
  in_temp-Keeps pattern next keep s o = elim (Outcome-cases (Host.make_temp H pattern s.world).0) [
    | inl (x, stop) ↦ rw (in_temp, stop) o
    | inr (path, made) ↦ rw (in_temp, made) (keep path _ o)
  ]

  abbrev Ready : Run H → Type 0
  Ready s = Prepared s.trace × Orderly s.trace

  module _ (fuel : ℕ) (tmp url tag : Text) (valid : validate_name (codes "tag") tag ≡ none) where
    push_refs-Keeps :
        (report : TagReport) (s : Run H)
        → opts.dry_run ≡ false
        → Prepared s.trace
        → Orderly s.trace
        → Keeps (push_refs H opts fuel tmp url tag report s)
    unfolding push_refs note
    push_refs-Keeps report s real p o =
        elim (Option-cases (Host.push H (push_options H opts fuel tmp url tag) s.world).0) [
          | inl e ↦ rw (push_refs, e) ((tag, valid, refl, refl, real), p, o)
          | inr (x, e) ↦ rw (push_refs, e) ((tag, valid, refl, refl, real), p, o)
        ]

    set_reference-Keeps :
        (name : Text) (h : Hash) (next : Step H TagReport)
        → ((s : Run H) → Ready s → Keeps (next s))
        → (s : Run H) → Ready s
        → Keeps (set_reference H opts fuel tmp url tag name h next s)
    unfolding set_reference
    set_reference-Keeps name h next keep s (p, o) =
        elim (Option-cases (Host.set_reference H name h s.world).0) [
          | inl e ↦
              rw (set_reference, e)
                (keep (record s { world = (Host.set_reference H name h s.world).1 }) (p, o))
          | inr (x, e) ↦ rw (set_reference, e) o
        ]

    publish_objects-Keeps :
        (report : TagReport) (r : Outcome (Hash × Hash)) (s : Run H)
        → opts.dry_run ≡ false
        → Ready s
        → Keeps (publish_objects H opts fuel tmp url tag report r s)
    unfolding publish_objects
    publish_objects-Keeps report (error e) s real (p, o) = o
    publish_objects-Keeps report (done (c, t)) s real ready =
        set_reference-Keeps (codes "refs/heads/main") c _
          (set_reference-Keeps (codes "refs/tags/" ++ tag) t _ (λ s' ready'.
            push_refs-Keeps (record report { commit = codes c }) s' real ready'.0 ready'.1))
          s ready

    release-Keeps :
        (c : Commit) (h : Hash) (report : TagReport) (s : Run H)
        → Ready s
        → Keeps (release H opts fuel tmp url tag c h report s)
    unfolding release synthesize_and_push
    release-Keeps c h report s ready = branch opts.dry_run refl
      where
        branch :
            (dry : Bool)
            → opts.dry_run ≡ dry
            → Keeps (
                if dry
                then (done (record report { verify_cmd = verify_cmd H opts fuel tag }), s)
                else synthesize_and_push H opts fuel tmp url tag c h report s)
        branch true e = ready.1
        branch false e = publish_objects-Keeps report _ _ e ready

    compare_and_release-Keeps :
        (auth : AuthMethod) (c : Commit) (h : Hash) (report : TagReport) (s : Run H)
        → (build : Text) (rest : List Event) → s.trace ≡ gate_passed build ∷ rest
        → Orderly s.trace
        → Keeps (compare_and_release H opts fuel tmp url tag auth c h report s)
    unfolding compare_and_release decide note
    compare_and_release-Keeps auth c h report s build rest e o =
        let k = (check_remote_tag H opts auth tag h s.world).0 in
        elim (Option-cases (refusal opts.allow_overwrite tag k)) [
          | inl clear ↦
              rw (compare_and_release, decide, clear)
                (release-Keeps c h _ _ (
                  subst (λ t. Prepared (compared k ∷ t)) (sym e)
                      (refusal-Cleared tag k clear (overwrote_allowed auth tag h s.world)),
                  o,
                ))
          | inr (x, stop) ↦ rw (compare_and_release, decide, stop) o
        ]

    pass_gate-Keeps :
        (build : Text) (auth : AuthMethod) (c : Commit) (h : Hash) (report : TagReport) (s : Run H)
        → Orderly s.trace
        → Keeps (pass_gate H opts fuel tmp url tag build auth c h report s)
    unfolding pass_gate note
    pass_gate-Keeps build auth c h report s o =
        elim (Option-cases (gate_result (Host.visited H) (Host.load_packages H build s.world).0)) [
          | inl passed ↦
              rw (pass_gate, passed)
                (compare_and_release-Keeps auth c h report _ build s.trace refl o)
          | inr (x, stop) ↦ rw (pass_gate, stop) o
        ]

    build_and_release-Keeps :
        (build : Text) (auth : AuthMethod) (c : Commit) (h : Hash) (report : TagReport) (s : Run H)
        → Orderly s.trace
        → Keeps (build_and_release H opts fuel tmp url tag build auth c h report s)
    unfolding build_and_release
    build_and_release-Keeps build auth c h report s o =
        elim (Option-cases
          (materialize_tree (disk H) (λ x. Host.find H x s.world) fuel h build s.world).0) [
            | inl made ↦ rw (build_and_release, made) (pass_gate-Keeps build auth c h report _ o)
            | inr (x, stop) ↦ rw (build_and_release, stop) o
          ]

    rewrite_and_release-Keeps :
        (auth : AuthMethod) (c : Hash × Commit) (s : Run H)
        → Orderly s.trace
        → Keeps (rewrite_and_release H opts fuel tmp url tag auth c s)
    unfolding rewrite_and_release
    rewrite_and_release-Keeps auth (h, c) s o =
        elim (Outcome-cases
          (rewrite_tree (Host.source H) (store H) opts.mapping fuel c.tree_hash []
            (record { store = s.world; replaced = [] })).0) [
              | inl (x, stop) ↦ rw (rewrite_and_release, stop) o
              | inr (t, written) ↦
                  rw (rewrite_and_release, written)
                    (in_temp-Keeps _ _
                      (λ build s' o'. build_and_release-Keeps build auth c t _ s' o') _ o)
            ]

    publish-Keeps :
        (auth : AuthMethod) (s : Run H)
        → Orderly s.trace
        → Keeps (publish H opts fuel tmp url tag auth s)
    unfolding publish with_commit with_module_path
    publish-Keeps auth s o =
        by_path (read_module_path (Host.read_file H (opts.repo_dir ++ codes "/go.mod")))
      where
        by_commit :
            (r : Outcome (Hash × Commit)) → Keeps (with_commit H opts fuel tmp url tag auth r s)
        by_commit (error e) = o
        by_commit (done c) = rewrite_and_release-Keeps auth c s o

        by_path : (r : Outcome Text) → Keeps (with_module_path H opts fuel tmp url tag auth r s)
        by_path (error e) = o
        by_path (done path) = elim (Bool-cases (same path opts.mapping.source)) [
          | inl e ↦
              rw (with_module_path, e)
                (by_commit (resolve_ref_commit H (Host.canonical H) (codes "refs/tags/" ++ tag)))
          | inr e ↦ rw (with_module_path, e) o
        ]

    in_work_repo-Keeps :
        (auth : AuthMethod) (s : Run H)
        → Orderly s.trace
        → Keeps (in_work_repo H opts fuel tmp url tag auth s)
    unfolding in_work_repo
    in_work_repo-Keeps auth s o =
        let w = (Host.init_repo H tmp s.world).1 in
        elim (Option-cases (Host.init_repo H tmp s.world).0) [
          | inr (x, stop) ↦ rw (in_work_repo, stop) o
          | inl e ↦ elim (Option-cases (Host.create_remote H (remote_of opts) url w).0) [
            | inr (x, stop) ↦ rw (in_work_repo, e, stop) o
            | inl e' ↦ rw (in_work_repo, e, e') (publish-Keeps auth _ o)
          ]
        ]

  module _ (fuel : ℕ) where
    publish_tag-Keeps :
        (tag : Text)
        → validate_name (codes "tag") tag ≡ none
        → (s : Run H) → Orderly s.trace
        → Keeps (publish_tag H opts fuel tag s)
    unfolding publish_tag with_url with_auth
    publish_tag-Keeps tag valid s o = elim (Option-cases (Host.open_error H opts.repo_dir)) [
      | inr (x, stop) ↦ rw (publish_tag, stop) o
      | inl e ↦ rw (publish_tag, e) (by_url (remote_url H (remote_of opts)))
    ]
      where
        by_auth : (url : Text) (r : Outcome AuthMethod) → Keeps (with_auth H opts fuel tag url r s)
        by_auth url (error e) = o
        by_auth url (done auth) = elim (Option-cases (Host.backend_error H)) [
          | inr (x, stop) ↦ rw (with_auth, stop) o
          | inl e ↦
              rw (with_auth, e)
                (in_temp-Keeps _ _
                  (λ tmp s' o'. in_work_repo-Keeps fuel tmp url tag valid auth s' o') s o)
        ]

        by_url : (r : Outcome Text) → Keeps (with_url H opts fuel tag r s)
        by_url (error e) = o
        by_url (done url) = by_auth url (go_git_auth H (auth_method opts.auth.kind opts.auth))

    publish_tags-Orderly :
        (tags : List Text)
        → bad_tag tags ≡ none
        → (s : Run H) → Orderly s.trace
        → Orderly (publish_tags H opts fuel tags s).1.trace
    unfolding publish_tags bad_tag
    publish_tags-Orderly [] fine s o = o
    publish_tags-Orderly (t ∷ ts) fine s o =
        let here = publish_tag-Keeps t (ground arith) s o in
        elim (Outcome-cases (publish_tag H opts fuel t s).0) [
          | inl (e, stop) ↦ rw (publish_tags, stop) here
          | inr (r, more) ↦
              rw (publish_tags, more)
                (publish_tags-Orderly ts (ground arith) (publish_tag H opts fuel t s).1 here)
        ]

    -- In every run of `Publish` each push is of one tag, which is an accepted name, to the remote of the
    -- options, and the run is not a dry run; directly before it stands a comparison with the remote that
    -- clears it, and before that a gate that was passed. A comparison clears a push where the options
    -- allow to overwrite, or where it ended without an error and without a difference, or where it
    -- ended in an error whose message has the word `empty` in it.
    pub pushes_are_cleared :
        (s : Run H) → Orderly s.trace → Orderly (publish_all H opts fuel s).1.trace
    unfolding publish_all validate_options
    pushes_are_cleared s o = elim (Option-cases (validate_options opts)) [
      | inr (e, stop) ↦ rw (publish_all, stop) o
      | inl fine ↦ rw (publish_all, fine) (publish_tags-Orderly opts.tags (ground arith) s o)
    ]
