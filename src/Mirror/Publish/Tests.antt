-- ===== src/Mirror/Publish/Tests.antt =====
-- A host in memory, and the theorems on `Publish` at it.
use git_sync_core.Prelude.{
  ◌≡◌, refl, false, none, some, List, [], ◌∷◌, Text, codes, Table, lookup, insert, has_prefix,
  has_suffix, contains, same, is_empty,
}
use git_sync_core.Executor.Errors.{GoError, new_error}
use git_sync_core.Executor.Environment.{Outcome, done, error}
use git_sync_core.Mirror.Host.{
  anonymous, auth_none, Options, TagReport, Lookup, found, missing, Host, Compared, compared,
  auth_method, remote_of, bad_tag, validate_options,
}
use git_sync_core.Mirror.Tree.{
  Hash, regular, Signature, Commit, Object, is_kept, store_object, read_blob, copy_blob_object,
  set_blob, rewrite_blob, rewrite_file, rewrite_dir, by_mode, then_entry, and_then, rewrite_entries,
  store_tree, rewrite_level, rewrite_tree, mirror_commit, mirror_tag, synthesize_refs,
}
use git_sync_core.Mirror.Tree.Instances.{memory_put, unary, digest}
use git_sync_core.Mirror.Compare.{
  Run, lists_tag, resolve_ref_commit, peel, commit_at, first_error_in, first_error, has_no_package,
  gate_result, urls_of, refusal, note, in_temp, remote_url, go_git_auth, compare_commit,
  compare_fetched, compare_listed, check_remote_tag,
}
use git_sync_core.Mirror.Publish.{
  release, compare_and_release, publish_all, verify_cmd, push_refs, set_reference, publish_objects,
  synthesize_and_push, decide, pass_gate, build_and_release, rewrite_and_release, with_commit,
  with_module_path, publish, in_work_repo, with_auth, with_url, publish_tag, publish_tags,
}
use git_sync_core.Mirror.Publish.Order.{Orderly, pushes_are_cleared}
use git_sync_core.Mirror.Publish.Divergence.{divergent_is_refused, empty_in_name_unprotected}
use git_sync_core.Mirror.Names.{is_name_char, bad_name_char, validate_name, push_specs, check_spec}
use git_sync_core.Mirror.GoMod.{
  digit_value, number_in, escape_of, unescape, without_last, drop_returns, unquote, split_lines,
  unquoted, path_on, no_module_line, module_path_in, read_module_path,
}
use git_sync_core.Mirror.Materialize.{
  split_path, add_part, clean_parts, with_slashes, clean, join_path, up_to_slash, dir_of,
  refused_link, blob_bytes, tree_entries, materialize_file, make_checked_link, materialize_link,
  then_act, materialize_entry, materialize_entries, materialize_tree,
}
use git_sync_core.Mirror.Rewrite.{
  is_path_char, after, boundary_of, match_here, is_group_char, group_name, closes, group_value,
  reference, expand, replace_all, rewrite_module_path,
}
use git_sync_core.Channel.Tags.{is_space, trim_space_left, trim_space_right, trim_space}

abbrev somebody : Signature
somebody = record { name = codes "n"; email = codes "e"; time = 1; zone = 0 }

abbrev commit_with : Hash → Commit
commit_with h = record {
  author = somebody;
  committer = somebody;
  tree_hash = h;
  parents = [];
  message = codes "m";
}

-- The repository has one file; the mirror lists `refs`, and the fetched tag leads to `there`.
abbrev host : List Text → Lookup → Outcome Commit → Host
host refs tag_target there = record {
  World = Table Object;
  open_error = λ d. none;
  canonical = record {
    reference = λ r. done "s";
    tag_object = λ h. missing;
    commit_object = λ h. done (commit_with "root");
  };
  short_name = λ r. r;
  source = record {
    tree_entries = λ h. done (record { name = codes "go.mod"; mode = regular; hash = "f" } ∷ []);
    blob_bytes = λ h. done (codes "module a/b");
  };
  remotes = done ((codes "github", codes "url" ∷ []) ∷ []);
  read_file = λ f. done (codes "module a/b");
  keys_error = λ a. none;
  backend_error = none;
  make_temp = λ p w. (done p, w);
  remove_all = λ p w. w;
  init_repo = λ p w. (none, w);
  create_remote = λ n u w. (none, w);
  work = λ w. record {
    reference = λ r. done "x";
    tag_object = λ h. tag_target;
    commit_object = λ h. there;
  };
  find = λ h w. elim (lookup h w) [
    | some o ↦ done o
    | none ↦ error (new_error (codes "object not found"))
  ];
  put = memory_put;
  remote_error = λ n w. none;
  list_refs = λ n a w. done refs;
  fetch = λ n s a w. (none, w);
  set_reference = λ n h w. (none, w);
  push = λ o w. (none, w);
  mkdir_all = λ p w. (none, w);
  write_file = λ p c r w. (none, w);
  remove = λ p w. w;
  make_link = λ t p w. (none, w);
  load_packages = λ d w. (done (record { errors = []; module_info = none } ∷ []), w);
  visited = λ ps. ps;
}

abbrev options : Options
options = record {
  repo_dir = codes "repo";
  mapping = record { source = codes "a/b"; target = codes "x/y" };
  tags = codes "v1" ∷ [];
  remote = [];
  auth = record {
    kind = auth_none;
    username = [];
    password = [];
    token = [];
    ssh_key = [];
    ssh_key_content = [];
    passphrase = [];
  };
  allow_overwrite = false;
  dry_run = false;
}

abbrev report : TagReport
report = record {
  tag = codes "v1";
  source_commit = [];
  tree = [];
  commit = [];
  replaced_files = [];
  verify_cmd = [];
  remote_tag_existed = false;
  tree_matched_remote = false;
  overwrote_divergent = false;
}

abbrev new_mirror : Host
new_mirror = host [] missing (error (new_error []))

abbrev start : (H : Host) → Host.World H → Run H
start H w = record { world = w; trace = [] }

-- The first publication succeeds.
first_publication : (publish_all new_mirror options 2 (start new_mirror [])).0.1 ≡ none
unfolding is_name_char bad_name_char validate_name push_specs check_spec digit_value number_in
    escape_of unescape without_last drop_returns unquote split_lines unquoted path_on no_module_line
    module_path_in read_module_path auth_method remote_of bad_tag validate_options is_kept
    store_object read_blob copy_blob_object set_blob rewrite_blob rewrite_file rewrite_dir by_mode
    then_entry and_then rewrite_entries store_tree rewrite_level rewrite_tree mirror_commit
    mirror_tag synthesize_refs split_path add_part clean_parts with_slashes clean join_path
    up_to_slash dir_of refused_link blob_bytes tree_entries materialize_file make_checked_link
    materialize_link then_act materialize_entry materialize_entries materialize_tree first_error_in
    first_error has_no_package gate_result urls_of refusal note in_temp commit_at peel
    resolve_ref_commit remote_url go_git_auth compare_commit compare_fetched lists_tag
    compare_listed check_remote_tag verify_cmd push_refs set_reference publish_objects
    synthesize_and_push release decide compare_and_release pass_gate build_and_release
    rewrite_and_release with_commit with_module_path publish in_work_repo with_auth with_url
    publish_tag publish_tags publish_all is_path_char after boundary_of match_here is_group_char
    group_name closes group_value reference expand replace_all rewrite_module_path is_space
    trim_space_left trim_space_right trim_space unary digest memory_put lookup insert is_empty same
    contains has_prefix has_suffix
first_publication = refl

pushes_are_cleared_example :
    Orderly new_mirror options (publish_all new_mirror options 2 (start new_mirror [])).1.trace
pushes_are_cleared_example = pushes_are_cleared new_mirror options 2 (start new_mirror []) tt

abbrev other_tree : Host
other_tree = host (codes "refs/tags/v1" ∷ []) missing (done (commit_with "other"))

divergent_is_refused_example :
    ((e : GoError) × ((compare_and_release other_tree options 2 [] []
          (codes "v1")
          anonymous
          (commit_with "c")
          "mine"
          report
          (start other_tree [])).0
        ≡ error e))
    × ((y : Compared) × ((compare_and_release other_tree options 2 [] []
            (codes "v1")
            anonymous
            (commit_with "c")
            "mine"
            report
            (start other_tree [])).1.trace
          ≡ compared y ∷ []))
unfolding lists_tag same resolve_ref_commit peel commit_at
divergent_is_refused_example =
    divergent_is_refused other_tree options 2 anonymous [] [] (codes "v1") (commit_with "c") "mine"
      report (start other_tree []) refl refl refl refl "x" (commit_with "other") refl refl refl

abbrev strange_tag : Host
strange_tag =
    host (codes "refs/tags/v1-empty" ∷ []) (found "t")
      (error (new_error (codes "object not found")))

empty_in_name_unprotected_example :
    (r : TagReport) × (s : Run strange_tag) × (compare_and_release strange_tag options 2 [] []
        (codes "v1-empty")
        anonymous
        (commit_with "c")
        "mine"
        report
        (start strange_tag [])
      ≡ release strange_tag options 2 [] [] (codes "v1-empty") (commit_with "c") "mine" r s)
unfolding lists_tag same contains
empty_in_name_unprotected_example =
    empty_in_name_unprotected strange_tag options 2 anonymous [] [] (codes "v1-empty")
      (commit_with "c") "mine" report (start strange_tag []) refl refl refl refl "x" "t"
      (new_error (codes "object not found")) refl refl refl refl
