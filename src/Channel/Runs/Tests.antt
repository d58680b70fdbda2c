-- ===== src/Channel/Runs/Tests.antt =====
-- Runs of a channel whose target refuses some tags, and the theorems at them.
use git_sync_core.Prelude.{
  ℕ, suc, ◌≡◌, refl, false, none, some, List, [], ◌∷◌, ◌++◌, All, codes, if◌then◌else◌, same,
  contains, has_prefix, trim_right, is_empty,
}
use git_sync_core.Executor.Errors.{GoError, new_error}
use git_sync_core.Executor.Environment.{done, error}
use git_sync_core.Channel.Entities.{MirrorChannel, MirrorTarget, TagStatus, MirrorRun}
use git_sync_core.Channel.Tags.{
  split_tags, join_tags, join_more, escape, escape_by, is_escaped, trim, trim_left, is_space,
  trim_space, trim_space_left, trim_space_right, split_comma, tag_of, tags_of,
}
use git_sync_core.Channel.Tags.Reading.{split_tags-join_tags}
use git_sync_core.Channel.Runs.{
  Publisher, Progress, Saved, RunInput, new_mirror_run, admit_run, check_run, check_kind,
  check_tags, create_run, has_running, is_in_progress, execute, execute_publish, run_mode, finish,
  publish_tags, publish_tag, publish_one, first_report, record_result, put_status, partly_failed,
  save, is_divergent_error,
}
use git_sync_core.Channel.Runs.Statuses.{Succeeded}
use git_sync_core.Channel.Runs.Results.{executed_run_ends}
use git_sync_core.Channel.Runs.Checks.{
  later_checks_are_refused, checks_first_admit_both, running_of,
}
use git_sync_core.Channel.Runs.Admission.{success_means_published, divergent_tag_admits_another}

split_tags-join_tags_example :
    split_tags (join_tags (codes "v1.0.0" ∷ (codes "v1.1.0-rc.1" ∷ [])))
    ≡ codes "v1.0.0" ∷ (codes "v1.1.0-rc.1" ∷ [])
unfolding is_space is_escaped
split_tags-join_tags_example =
    split_tags-join_tags (codes "v1.0.0") (codes "v1.1.0-rc.1" ∷ []) refl (refl, tt)

-- A tag with a comma, which git allows, is read back as two tags.
comma_splits : split_tags (join_tags (codes "a,b" ∷ [])) ≡ codes "a" ∷ (codes "b" ∷ [])
unfolding split_tags join_tags join_more escape is_escaped trim trim_left trim_right is_space
    trim_space trim_space_left trim_space_right split_comma tag_of tags_of is_empty
comma_splits = refl

-- A tag with a character that JSON escapes is not read back.
escape_stays :
    split_tags (join_tags (codes "v1&2" ∷ [])) ≡ (codes "v1" ++ (92 ∷ codes "u00262")) ∷ []
unfolding split_tags join_tags join_more escape escape_by is_escaped trim trim_left trim_right
    is_space trim_space trim_space_left trim_space_right split_comma tag_of tags_of is_empty
escape_stays = refl

-- The target refuses the tag `bad`; a world is its clock.
abbrev refusing : Publisher
refusing = record {
  World = ℕ;
  now = λ w. w;
  cancelled = λ w. none;
  ensure_repo = λ ch w. (none, suc w);
  ensure_target_remote = λ t w. (none, suc w);
  publish = λ ch t tag allow dry w. (
    (if same tag (codes "bad")
        then error (new_error (codes "tag bad: 拒绝覆盖"))
        else done (record { commit = "c"; tree = "t" } ∷ [])),
    suc w,
  );
}

abbrev channel : MirrorChannel
channel = record {
  id = 3;
  name = codes "open";
  mode = "publish";
  repo_key = "r";
  module_path = codes "a/b";
}

abbrev github : MirrorTarget
github = record {
  id = 5;
  channel_id = 3;
  remote = codes "github";
  repo_url = codes "https://g/x";
  target_module = codes "g/x";
  cred_type = "none";
  credential = [];
  username = [];
}

abbrev good_tags : RunInput
good_tags = record {
  target_id = 5;
  tags = codes "v1" ∷ (codes "v2" ∷ []);
  allow_overwrite = false;
  kind = "";
}

abbrev bad_tags : RunInput
bad_tags = record good_tags { tags = codes "bad" ∷ (codes "v2" ∷ []) }

abbrev idle : Saved refusing
idle = record { world = 10; rows = [] }

bad_run_state :
    (execute refusing channel github false (new_mirror_run 1 3 "publish" bad_tags) idle).0.status
    ≡ "divergent"
unfolding execute execute_publish run_mode finish publish_tags publish_tag publish_one first_report
    record_result put_status partly_failed save is_divergent_error new_mirror_run split_tags
    join_tags join_more trim trim_left is_space trim_space trim_space_left trim_space_right
    split_comma tag_of tags_of contains has_prefix trim_right is_empty same escape is_escaped
bad_run_state = refl

executed_run_ends_example :
    let r = execute refusing channel github false (new_mirror_run 1 3 "publish" bad_tags) idle in
    (is_in_progress r.0 ≡ false)
    × ((time : ℕ) × (r.0.finished_at ≡ some time))
    × ((before : List MirrorRun) × (r.1.rows ≡ r.0 ∷ before))
executed_run_ends_example =
    executed_run_ends refusing channel github false (new_mirror_run 1 3 "publish" bad_tags) idle

good_run_state :
    (execute refusing channel github false (new_mirror_run 1 3 "publish" good_tags) idle).0.status
    ≡ "success"
unfolding execute execute_publish run_mode finish publish_tags publish_tag publish_one first_report
    record_result put_status partly_failed save is_divergent_error new_mirror_run split_tags
    join_tags join_more trim trim_left is_space trim_space trim_space_left trim_space_right
    split_comma tag_of tags_of contains has_prefix trim_right is_empty same escape is_escaped
good_run_state = refl

success_means_published_example :
    (sts : List TagStatus) × ((execute refusing channel github false
        (new_mirror_run 1 3 "publish" good_tags)
        idle).0.tag_statuses
      ≡ some sts)
    × All (Succeeded sts) (split_tags (new_mirror_run 1 3 "publish" good_tags).tags)
unfolding new_mirror_run
success_means_published_example =
    success_means_published refusing channel github false (new_mirror_run 1 3 "publish" good_tags)
      idle refl refl good_run_state

later_checks_are_refused_example :
    (has_running 3 [] ≡ false)
    × ((e : GoError) × (check_run none 3 bad_tags
            ([] ++ (create_run none 1 3 good_tags "publish" []).1)
          ≡ error e))
unfolding check_run check_kind check_tags create_run has_running
later_checks_are_refused_example =
    later_checks_are_refused none none none 1 3 good_tags bad_tags "publish" [] [] []
      (new_mirror_run 1 3 "publish" good_tags) refl refl

checks_first_admit_both_example :
    let first = create_run none 1 3 good_tags "publish" [] in
    let second = create_run none 2 3 bad_tags "publish" first.1 in
    (running_of 3 [] ≡ 0)
    × ((r : MirrorRun) × (first.0 ≡ done r))
    × ((r : MirrorRun) × (second.0 ≡ done r))
    × (running_of 3 second.1 ≡ 2)
unfolding check_run check_kind check_tags has_running
checks_first_admit_both_example =
    checks_first_admit_both 1 2 3 good_tags bad_tags "publish" "publish" [] refl refl

abbrev starting : Progress
starting = record {
  run = new_mirror_run 1 3 "publish" bad_tags;
  steps = [];
  statuses = [];
  failed = 0;
  divergent = 0;
}

divergent_tag_admits_another_example :
    let r = publish_tag refusing channel github false (codes "bad") (starting, idle) in
    let req : RunInput = record {
      target_id = 5;
      tags = codes "v9" ∷ [];
      allow_overwrite = false;
      kind = "";
    } in
    ((before : List MirrorRun) × (r.1.rows ≡ r.0.run ∷ before))
    × (is_in_progress r.0.run ≡ false)
    × ((admit_run none none 2 r.0.run.channel_id req (r.0.run ∷ [])).0
        ≡ done (new_mirror_run 2 r.0.run.channel_id "publish" req))
unfolding publish_one first_report is_divergent_error contains has_prefix same
divergent_tag_admits_another_example =
    divergent_tag_admits_another refusing channel github false (codes "bad") starting idle
      (new_error (codes "tag bad: 拒绝覆盖")) 2 (codes "v9") 5 refl refl
