-- ===== src/Mirror/Publish.antt =====
-- mirror/mirror.go: `Publish`, `publishTag` and `publish`. The fuel is that of Mirror/Tree.
pub mod Order
pub mod Divergence
pub mod Tests
use git_sync_core.Prelude.{
  ℕ, zero, suc, ◌==◌, Bool, true, false, not, ◌&&◌, ◌||◌, String, Option, none, some, List, [], ◌∷◌,
  ◌++◌, Text, codes, is_empty, same, contains, any, if◌then◌else◌, ◌=ˢ◌,
}
use git_sync_core.Executor.Errors.{GoError, new_error, wrap}
use git_sync_core.Executor.Environment.{Outcome, done, error}
use git_sync_core.Mirror.Names.{push_specs, check_spec}
use git_sync_core.Mirror.GoMod.{read_module_path}
use git_sync_core.Mirror.Host.{
  AuthMethod, Options, TagReport, PushOptions, auth_method, remote_of, validate_options, Package,
  Lookup, found, missing, failed, References, Host, CompareResult, compare_unknown, compare_matched,
  compare_mismatched, Compared, Event, temp_made, temp_removed, gate_passed, compared, pushed,
}
use git_sync_core.Mirror.Materialize.{Disk, materialize_tree, wrapped}
use git_sync_core.Mirror.Tree.{
  Hash, Object, Commit, ObjectStore, Building, rewrite_tree, synthesize_refs,
}
use git_sync_core.Mirror.Compare.{
  gate_result, refusal, Run, Step, note, disk, store, in_temp, resolve_ref_commit, check_remote_tag,
  remote_url, go_git_auth,
}

module _ (H : Host) (opts : Options) (fuel : ℕ) where
  unfoldable pub verify_cmd : Text → Text
  verify_cmd tag = codes "go list -m " ++ (opts.mapping.target ++ (b'@' ∷ tag))

  module _ (tmp url tag : Text) where
    abbrev push_options : PushOptions
    push_options = record {
      repo_path = tmp;
      remote = remote_of opts;
      ref_specs = push_specs tag;
      force = true;
      auth = opts.auth;
    }

    -- The push of `publish` and its report.
    unfoldable pub push_refs : TagReport → Step H TagReport
    push_refs report s =
        let (problem, w) = Host.push H push_options s.world in
        let s' = note H (pushed push_options problem) (record s { world = w }) in
        elim problem [
          | some e ↦ (error (wrap (codes "推送镜像远端 " ++ (url ++ codes " 失败")) e), s')
          | none ↦ (done (record report { verify_cmd = verify_cmd tag }), s')
        ]

    unfoldable pub set_reference : (name : Text) → Hash → Step H TagReport → Step H TagReport
    set_reference name h next s =
        let (problem, w) = Host.set_reference H name h s.world in
        let s' = record s { world = w } in elim problem [ some e ↦ (error e, s') | none ↦ next s' ]

    unfoldable pub publish_objects : TagReport → Outcome (Hash × Hash) → Step H TagReport
    publish_objects report (error e) s = (error e, s)
    publish_objects report (done (commit_hash, tag_hash)) s =
        set_reference (codes "refs/heads/main") commit_hash
          (set_reference (codes "refs/tags/" ++ tag) tag_hash
            (push_refs (record report { commit = codes commit_hash })))
          s

    -- `publish` from the synthesis of the commit on.
    unfoldable pub synthesize_and_push : Commit → Hash → TagReport → Step H TagReport
    synthesize_and_push c tree_hash report s =
        let (r, b) =
          synthesize_refs (Host.source H) (store H) opts.mapping c tree_hash tag
            (record { store = s.world; replaced = [] }) in
        publish_objects report r (record s { world = b.store })

    unfoldable pub release : Commit → Hash → TagReport → Step H TagReport
    release c tree_hash report s =
        if opts.dry_run
        then (done (record report { verify_cmd = verify_cmd tag }), s)
        else synthesize_and_push c tree_hash report s

    abbrev is_matched : CompareResult → Bool
    is_matched compare_matched = true
    is_matched other = false

    -- `publish` from the comparison with the remote on.
    unfoldable pub decide : Commit → Hash → TagReport → Compared → Step H TagReport
    decide c tree_hash report k s = elim (refusal opts.allow_overwrite tag k) [
      | some e ↦ (error e, s)
      | none ↦
          release c tree_hash
            (record report {
              remote_tag_existed = k.existed;
              tree_matched_remote = is_matched k.result;
              overwrote_divergent = k.overwrote;
            })
            s
    ]

    unfoldable pub compare_and_release : AuthMethod → Commit → Hash → TagReport → Step H TagReport
    compare_and_release auth c tree_hash report s =
        let (k, w) = check_remote_tag H opts auth tag tree_hash s.world in
        decide c tree_hash report k (note H (compared k) (record s { world = w }))

    -- `publish` from the gate on, in the directory of the build.
    unfoldable pub pass_gate :
        (build : Text) → AuthMethod → Commit → Hash → TagReport → Step H TagReport
    pass_gate build auth c tree_hash report s =
        let (loaded, w) = Host.load_packages H build s.world in
        let s' = record s { world = w } in
        elim (gate_result (Host.visited H) loaded) [
          | some e ↦ (error (wrap (codes "编译门禁未通过,已中止(未推送)") e), s')
          | none ↦ compare_and_release auth c tree_hash report (note H (gate_passed build) s')
        ]

    unfoldable pub build_and_release :
        (build : Text) → AuthMethod → Commit → Hash → TagReport → Step H TagReport
    build_and_release build auth c tree_hash report s =
        let (problem, w) =
          materialize_tree (disk H) (λ h. Host.find H h s.world) fuel tree_hash build s.world in
        let s' = record s { world = w } in
        elim problem [
          | some e ↦ (error (wrap (codes "物化改写后源码失败") e), s')
          | none ↦ pass_gate build auth c tree_hash report s'
        ]

    abbrev empty_report : TagReport
    empty_report = record {
      tag = tag;
      source_commit = [];
      tree = [];
      commit = [];
      replaced_files = [];
      verify_cmd = [];
      remote_tag_existed = false;
      tree_matched_remote = false;
      overwrote_divergent = false;
    }

    -- `publish` from the rewriting of the tree on.
    unfoldable pub rewrite_and_release : AuthMethod → Hash × Commit → Step H TagReport
    rewrite_and_release auth (h, c) s =
        let (r, b) =
          rewrite_tree (Host.source H) (store H) opts.mapping fuel c.tree_hash []
            (record { store = s.world; replaced = [] }) in
        let s' = record s { world = b.store } in
        elim r [
          | error e ↦ (error e, s')
          | done tree_hash ↦
              in_temp H (codes "gomirror-build-*")
                (λ build. build_and_release build auth c tree_hash (record empty_report {
                  source_commit = codes h;
                  tree = codes tree_hash;
                  replaced_files = b.replaced;
                }))
                s'
        ]

    unfoldable pub with_commit : AuthMethod → Outcome (Hash × Commit) → Step H TagReport
    with_commit auth (error e) s = (error e, s)
    with_commit auth (done c) s = rewrite_and_release auth c s

    unfoldable pub with_module_path : AuthMethod → Outcome Text → Step H TagReport
    with_module_path auth (error e) s = (error e, s)
    with_module_path auth (done path) s =
        if same path opts.mapping.source
        then with_commit auth (resolve_ref_commit H (Host.canonical H) (codes "refs/tags/" ++ tag))
            s
        else (
          error (
              new_error (
                codes "go.mod module 是 "
                ++ (path
                    ++ (codes ",与 Mapping.Source " ++ (opts.mapping.source ++ codes " 不一致"))))),
          s,
        )

    -- `publish`
    unfoldable pub publish : AuthMethod → Step H TagReport
    publish auth s =
        with_module_path auth
          (read_module_path (Host.read_file H (opts.repo_dir ++ codes "/go.mod"))) s

    -- `publishTag` from the temporary directory on.
    unfoldable pub in_work_repo : AuthMethod → Step H TagReport
    in_work_repo auth s =
        let (problem, w) = Host.init_repo H tmp s.world in
        elim problem [
          | some e ↦ (error (wrap (codes "初始化临时仓库失败") e), record s { world = w })
          | none ↦
              let (problem', w') = Host.create_remote H (remote_of opts) url w in
              let s' = record s { world = w' } in
              elim problem' [ some e ↦ (error e, s') | none ↦ publish auth s' ]
        ]

  unfoldable pub with_auth : (tag url : Text) → Outcome AuthMethod → Step H TagReport
  with_auth tag url (error e) s = (error e, s)
  with_auth tag url (done auth) s = elim (Host.backend_error H) [
    | some e ↦ (error (wrap (codes "初始化 git backend 失败") e), s)
    | none ↦ in_temp H (codes "gomirror-repo-*") (λ tmp. in_work_repo tmp url tag auth) s
  ]

  unfoldable pub with_url : (tag : Text) → Outcome Text → Step H TagReport
  with_url tag (error e) s = (error e, s)
  with_url tag (done url) s =
      with_auth tag url (go_git_auth H (auth_method opts.auth.kind opts.auth)) s

  -- `publishTag`
  unfoldable pub publish_tag : Text → Step H TagReport
  publish_tag tag s = elim (Host.open_error H opts.repo_dir) [
    | some e ↦ (error (wrap (codes "打开 canonical 仓库失败") e), s)
    | none ↦ with_url tag (remote_url H (remote_of opts)) s
  ]

  -- The loop of `Publish`: the reports of the tags that were published, and the error that ended it.
  unfoldable pub publish_tags : List Text → Run H → (List TagReport × Option GoError) × Run H
  publish_tags [] s = (([], none), s)
  publish_tags (t ∷ ts) s =
      let (r, s') = publish_tag t s in
      let ((reports, problem), s'') = publish_tags ts s' in
      elim r [
        | error e ↦ (([], some (wrap (codes "发布 tag " ++ (t ++ codes " 失败")) e)), s')
        | done report ↦ ((report ∷ reports, problem), s'')
      ]

  -- `Publish`; the report is nil where the options are refused.
  unfoldable pub publish_all : Run H → (Option (List TagReport) × Option GoError) × Run H
  publish_all s = elim (validate_options opts) [
    | some e ↦ ((none, some e), s)
    | none ↦
        let ((reports, problem), s') = publish_tags opts.tags s in ((some reports, problem), s')
  ]
