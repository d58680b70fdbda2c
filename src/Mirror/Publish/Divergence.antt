-- ===== src/Mirror/Publish/Divergence.antt =====
-- A tag that the mirror has already: what `publish` does where the trees differ, and where the commit of
-- the mirror's tag cannot be read.
use git_sync_core.Prelude.{
  ℕ, Bool, true, false, ◌≡◌, refl, ap, ◌∙◌, none, some, List, ◌∷◌, ◌++◌, Text, codes, contains,
  arith, ◌=ˢ◌,
}
use git_sync_core.Prelude.TextLaws.{contains-append_left}
use git_sync_core.Executor.Errors.{GoError, wrap}
use git_sync_core.Executor.Environment.{Outcome, done, error}
use git_sync_core.Mirror.Names.{check_spec}
use git_sync_core.Mirror.Host.{
  AuthMethod, Options, TagReport, remote_of, found, Host, Compared, compared, compare_unknown,
  compare_mismatched,
}
use git_sync_core.Mirror.Tree.{Hash, Commit}
use git_sync_core.Mirror.Compare.{
  refusal, Run, note, resolve_ref_commit, commit_at, peel, lists_tag, check_remote_tag,
  compare_listed, compare_fetched, compare_commit,
}
use git_sync_core.Mirror.Publish.{release, decide, compare_and_release}

abbrev different : Compared
different = record {
  result = compare_mismatched;
  existed = true;
  overwrote = false;
  problem = none;
}

abbrev unreadable : GoError → Compared
unreadable e = record {
  result = compare_unknown;
  existed = true;
  overwrote = false;
  problem = some e;
}

unreadable_passes :
    (allow : Bool) (tag : Text) (e : GoError)
    → contains e.message (codes "empty") ≡ true
    → refusal allow tag (unreadable e) ≡ none
unfolding refusal
unreadable_passes allow tag e h = rw h refl

unequal :
    (H : Host) (opts : Options) (h : Hash) (r : Outcome (Hash × Commit)) (x : Hash) (k : Commit)
    → opts.allow_overwrite ≡ false
    → r ≡ done (x, k)
    → (k.tree_hash =ˢ h) ≡ false
    → compare_commit H opts h r ≡ different
unfolding compare_commit
unequal H opts h r x k strict read differs = rw read (ground arith)

module _ (H : Host) (opts : Options) (fuel : ℕ) (auth : AuthMethod) (tmp url tag : Text)
    (c : Commit) (h : Hash) (report : TagReport) (s : Run H) {refs : List Text} {w : Host.World H}
    (known : Host.remote_error H (remote_of opts) s.world ≡ none)
    (listing : Host.list_refs H (remote_of opts) auth s.world ≡ done refs)
    (there : lists_tag H opts tag refs ≡ true)
    (fetched : Host.fetch H (remote_of opts) (check_spec tag) auth s.world ≡ (none, w)) where
  abbrev step : Outcome TagReport × Run H
  step = compare_and_release H opts fuel tmp url tag auth c h report s

  comparison : check_remote_tag H opts auth tag h s.world ≡ (
    compare_commit H opts h
        (resolve_ref_commit H (Host.work H w) (codes "refs/mirror-check/" ++ tag)),
    w,
  )
  unfolding check_remote_tag compare_listed compare_fetched
  comparison = rw (check_remote_tag, known, listing, compare_listed, there, fetched)

  -- The step goes on with that comparison.
  decided :
      (y : Compared)
      → compare_commit H opts h
          (resolve_ref_commit H (Host.work H w) (codes "refs/mirror-check/" ++ tag))
        ≡ y
      → step
        ≡ decide H opts fuel tmp url tag c h report y (note H (compared y) (record s { world = w }))
  unfolding compare_and_release
  decided y e =
      ap
        (λ (q : Compared × Host.World H).
          decide H opts fuel tmp url tag c h report q.0
            (note H (compared q.0) (record s { world = q.1 })))
        (comparison ∙ ap (λ (z : Compared). (z, w)) e)

  -- Where the mirror lists the tag, it is fetched and its commit has another tree than the one that
  -- was made, a run without leave to overwrite ends in an error, and all that it does after the gate is
  -- that comparison: nothing is pushed.
  pub divergent_is_refused :
      (x : Hash) (k : Commit)
      → opts.allow_overwrite ≡ false
      → resolve_ref_commit H (Host.work H w) (codes "refs/mirror-check/" ++ tag) ≡ done (x, k)
      → (k.tree_hash =ˢ h) ≡ false
      → ((e : GoError) × (step.0 ≡ error e))
        × ((y : Compared) × (step.1.trace ≡ compared y ∷ s.trace))
  unfolding decide refusal note
  divergent_is_refused x k strict read differs =
      rw (decided different (unequal H opts h _ x k strict read differs))
        ((_, refl), (different, refl))

  -- A tag whose short name under the reference of the comparison has `empty` in it is not protected: where
  -- the mirror lists the tag and it is fetched, but what it points to is not a commit, the run goes
  -- on to the release, with or without leave to overwrite.
  pub empty_in_name_unprotected :
      (x t : Hash) (e : GoError)
      → (Host.work H w).reference (codes "refs/mirror-check/" ++ tag) ≡ done x
      → (Host.work H w).tag_object x ≡ found t
      → (Host.work H w).commit_object t ≡ error e
      → contains (Host.short_name H (codes "refs/mirror-check/" ++ tag)) (codes "empty") ≡ true
      → (r : TagReport) × (s' : Run H) × (step ≡ release H opts fuel tmp url tag c h r s')
  unfolding decide refusal compare_commit resolve_ref_commit peel commit_at wrap
  empty_in_name_unprotected x t e ref target lost named =
      let short = Host.short_name H (codes "refs/mirror-check/" ++ tag) in
      let e' : GoError = wrap (short ++ codes " 未指向 commit") e in
      let y : Compared = unreadable e' in
      let has : contains (short ++ codes " 未指向 commit") (codes "empty") ≡ true =
        contains-append_left short (codes " 未指向 commit") (codes "empty") named in
      (
        record report {
          remote_tag_existed = true;
          tree_matched_remote = false;
          overwrote_divergent = false;
        },
        note H (compared y) (record s { world = w }),
        decided y (rw (resolve_ref_commit, ref, target, peel, commit_at, lost) refl)
            ∙ rw
                (
                  decide,
                  unreadable_passes opts.allow_overwrite tag e' (
                      contains-append_left (short ++ codes " 未指向 commit") (codes ": " ++ e.message)
                        (codes "empty") has),
                )
                refl,
      )
