-- ===== src/Mirror/Compare.antt =====
-- mirror/mirror.go: `checkRemoteTag`, `resolveRefCommit`, `remoteURL` and what `publish` makes of a
-- comparison; mirror/gate.go. The state of a run has a trace of what it does, newest first.
use git_sync_core.Prelude.{
  Bool, true, false, not, ◌&&◌, ◌||◌, Option, none, some, List, [], ◌∷◌, ◌++◌, Text, codes, same,
  contains, any, if◌then◌else◌, ◌=ˢ◌,
}
use git_sync_core.Executor.Errors.{GoError, new_error, wrap}
use git_sync_core.Executor.Environment.{Outcome, done, error}
use git_sync_core.Mirror.Names.{check_spec}
use git_sync_core.Mirror.Host.{
  AuthMethod, Options, remote_of, Package, Lookup, found, missing, failed, References, Host,
  compare_unknown, compare_matched, compare_mismatched, Compared, Event, temp_made, temp_removed,
}
use git_sync_core.Mirror.Materialize.{Disk, wrapped}
use git_sync_core.Mirror.Tree.{Hash, Object, Commit, ObjectStore}

-- The first error of the packages, `%s: %s`.
unfoldable pub first_error_in : List (Text × Text) → Option GoError
first_error_in [] = none
first_error_in ((pos, msg) ∷ more) = some (new_error (pos ++ (codes ": " ++ msg)))

unfoldable pub first_error : List Package → Option GoError
first_error [] = none
first_error (p ∷ ps) =
    let rest = first_error ps in elim (first_error_in p.errors) [ some e ↦ some e | none ↦ rest ]

unfoldable pub has_no_package : List Package → Bool
has_no_package [] = true
has_no_package (p ∷ ps) = false

-- `typeCheckGate`, from what loading gives.
unfoldable pub gate_result : (List Package → List Package) → Outcome (List Package) → Option GoError
gate_result visited (error e) = some (wrap (codes "加载包失败") e)
gate_result visited (done pkgs) =
    if has_no_package pkgs
    then some (new_error (codes "模块内未发现任何 Go 包"))
    else wrapped (codes "类型检查失败") (first_error (visited pkgs))

-- The URL of a remote in the configuration.
unfoldable pub urls_of : Text → List (Text × List Text) → Option (List Text)
urls_of name [] = none
urls_of name ((n, urls) ∷ more) = if same n name then some urls else urls_of name more

-- What `publish` makes of a comparison: the error with which it stops.
unfoldable pub refusal : (allow_overwrite : Bool) → (tag : Text) → Compared → Option GoError
refusal allow tag c =
    let divergent : GoError = new_error (
      codes "镜像远端已存在同名 tag "
      ++ (tag ++ codes " 且内容(tree)与本次合成结果不一致,拒绝覆盖已发布版本;确认要覆盖请设置 AllowOverwrite")) in
    elim c.problem [
      | some e ↦
          if contains e.message (codes "empty") || allow
          then (elim c.result [
            | compare_mismatched ↦ if c.overwrote then none else some divergent
            | _ ↦ none
          ])
          else some (wrap (codes "远端一致性检查失败(拒绝盲推,防覆盖已发布版本;确认覆盖请设置 AllowOverwrite)") e)
      | none ↦ elim c.result [
        | compare_mismatched ↦ if c.overwrote then none else some divergent
        | _ ↦ none
      ]
    ]

abbrev pub stored : Outcome Object → Option Object
stored (done o) = some o
stored (error e) = none

module _ (H : Host) where
  open H use {World, work, short_name}

  pub record Run : Type 0 where
    pub world : World
    pub trace : List Event

  abbrev pub Step : Type 0 → Type 0
  Step A = Run → Outcome A × Run

  unfoldable pub note : Event → Run → Run
  note e s = record s { trace = e ∷ s.trace }

  abbrev pub disk : Disk
  disk = record {
    World = World;
    mkdir_all = Host.mkdir_all H;
    write_file = Host.write_file H;
    remove = Host.remove H;
    make_link = Host.make_link H;
  }

  abbrev pub store : ObjectStore
  store = record { State = World; get = λ h w. stored (Host.find H h w); put = Host.put H }

  -- The use of a temporary directory, which the deferred call removes.
  unfoldable pub in_temp : {A : Type 0} → (pattern : Text) → (Text → Step A) → Step A
  in_temp pattern next s =
      let (made, w) = Host.make_temp H pattern s.world in
      elim made [
        | error e ↦ (error e, record s { world = w })
        | done path ↦
            let (r, s') = next path (note (temp_made path) (record s { world = w })) in
            (r, note (temp_removed path) (record s' { world = Host.remove_all H path s'.world }))
      ]

  -- `resolveRefCommit`
  unfoldable pub commit_at : References → (short : Text) → Hash → Outcome (Hash × Commit)
  commit_at refs short h = elim (refs.commit_object h) [
    | error e ↦ error (wrap (short ++ codes " 未指向 commit") e)
    | done c ↦ done (h, c)
  ]

  unfoldable pub peel : References → (short : Text) → Hash → Lookup → Outcome (Hash × Commit)
  peel refs short h (found target) = commit_at refs short target
  peel refs short h missing = commit_at refs short h
  peel refs short h (failed e) = error e

  unfoldable pub resolve_ref_commit : References → Text → Outcome (Hash × Commit)
  resolve_ref_commit refs ref = elim (refs.reference ref) [
    | error e ↦ error (wrap (codes "引用 " ++ (short_name ref ++ codes " 不存在")) e)
    | done h ↦ peel refs (short_name ref) h (refs.tag_object h)
  ]

  abbrev pub unknown_after : Bool → Option GoError → Compared
  unknown_after existed problem = record {
    result = compare_unknown;
    existed = existed;
    overwrote = false;
    problem = problem;
  }

  -- `remoteURL`
  unfoldable pub remote_url : Text → Outcome Text
  remote_url name =
      let unset : GoError = new_error (
        codes "canonical 仓库未配置远端 "
        ++ (name ++ (codes "(先 git remote add " ++ (name ++ codes " <镜像仓库 URL>)")))) in
      elim (Host.remotes H) [
        | error e ↦ error e
        | done remotes ↦ elim (urls_of name remotes) [
          | some (url ∷ more) ↦ done url
          | _ ↦ error unset
        ]
      ]

  -- `goGitAuth`
  unfoldable pub go_git_auth : Outcome AuthMethod → Outcome AuthMethod
  go_git_auth (error e) = error e
  go_git_auth (done auth) = elim (Host.keys_error H auth) [ some e ↦ error e | none ↦ done auth ]

  module _ (opts : Options) where
    -- The comparison of the fetched commit.
    unfoldable pub compare_commit : Hash → Outcome (Hash × Commit) → Compared
    compare_commit tree_hash (error e) = unknown_after true (some e)
    compare_commit tree_hash (done (h, c)) = record {
      result = if c.tree_hash =ˢ tree_hash then compare_matched else compare_mismatched;
      existed = true;
      overwrote = not (c.tree_hash =ˢ tree_hash) && opts.allow_overwrite;
      problem = none;
    }

    unfoldable pub compare_fetched : (tag : Text) → Hash → Option GoError × World → Compared × World
    compare_fetched tag tree_hash (some e, w) = (unknown_after true (some e), w)
    compare_fetched tag tree_hash (none, w) = (
      compare_commit tree_hash (resolve_ref_commit (work w) (codes "refs/mirror-check/" ++ tag)),
      w,
    )

    -- Whether the listing has the tag, or what an annotated tag points to.
    unfoldable pub lists_tag : (tag : Text) → List Text → Bool
    lists_tag tag refs =
        any
          (λ r.
            same r (codes "refs/tags/" ++ tag)
            || same r (codes "refs/tags/" ++ (tag ++ codes "^{}")))
          refs

    unfoldable pub compare_listed :
        AuthMethod → (tag : Text) → Hash → Outcome (List Text) → World → Compared × World
    compare_listed auth tag tree_hash (error e) w = (unknown_after false (some e), w)
    compare_listed auth tag tree_hash (done refs) w =
        if lists_tag tag refs
        then compare_fetched tag tree_hash (Host.fetch H (remote_of opts) (check_spec tag) auth w)
        else (unknown_after false none, w)

    -- `checkRemoteTag`
    unfoldable pub check_remote_tag : AuthMethod → (tag : Text) → Hash → World → Compared × World
    check_remote_tag auth tag tree_hash w = elim (Host.remote_error H (remote_of opts) w) [
      | some e ↦ (unknown_after false (some e), w)
      | none ↦ compare_listed auth tag tree_hash (Host.list_refs H (remote_of opts) auth w) w
    ]
