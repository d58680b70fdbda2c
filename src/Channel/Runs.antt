-- ===== src/Channel/Runs.antt =====
-- The runs of a channel (service/mirror_service.go): how one is admitted, and how it publishes its tags.
-- The clone of the source, the remotes, the package mirror, the end of the context and the clock are
-- arguments; the rows that a run saves are kept, newest first. The column with the last report is
-- left out, which only the display reads. A run that panics is not modelled.
pub mod Statuses
pub mod Results
pub mod Checks
pub mod Admission
pub mod Tests
use git_sync_core.Prelude.{
  ℕ, zero, suc, ◌+◌, ◌-◌, ◌==◌, ltb, Bool, true, false, not, ◌&&◌, ◌||◌, String, Option, none, some,
  List, [], ◌∷◌, ◌++◌, any, length, take, if◌then◌else◌, ◌=ˢ◌, Text, codes, contains, same, decimal,
}
use git_sync_core.Prelude.Utf.{utf8}
use git_sync_core.Executor.Errors.{GoError, new_error, wrap}
use git_sync_core.Executor.Environment.{Outcome, done, error}
use git_sync_core.Channel.Entities.{MirrorChannel, MirrorTarget, MirrorStep, TagStatus, MirrorRun}
use git_sync_core.Channel.Tags.{split_tags, join_tags}

-- `isDivergentError`
unfoldable pub is_divergent_error : GoError → Bool
is_divergent_error e = contains e.message (codes "拒绝覆盖")

-- `truncate`, which counts and cuts bytes.
unfoldable pub truncate : List ℕ → ℕ → List ℕ
truncate s n = if ltb n (length s) then take n s ++ utf8 (codes "…") else s

-- `HasRunningByChannel` over the rows of the runs.
unfoldable pub is_in_progress : MirrorRun → Bool
is_in_progress r = (r.status =ˢ "pending") || (r.status =ˢ "running")

unfoldable pub has_running : ℕ → List MirrorRun → Bool
has_running channel rows = any (λ r. (r.channel_id == channel) && is_in_progress r) rows

pub record RunInput : Type 0 where
  pub target_id : ℕ
  pub tags : List Text
  pub allow_overwrite : Bool
  pub kind : String

unfoldable pub new_mirror_run : ℕ → ℕ → String → RunInput → MirrorRun
new_mirror_run id channel kind req = record {
  id = id;
  channel_id = channel;
  target_id = req.target_id;
  kind = kind;
  tags = join_tags req.tags;
  status = "pending";
  tag_statuses = some [];
  steps = [];
  error = [];
  allow_overwrite = req.allow_overwrite;
  started_at = none;
  finished_at = none;
  duration_ms = 0;
}

-- `ExecuteMirrorRun` up to the answer of HasRunningByChannel: the kind of the run, or the error.
-- `querying` is the failure of the query.
unfoldable pub check_tags :
    (kind : String)
    → (querying : Option GoError) → (channel : ℕ) → List MirrorRun
    → List Text
    → Outcome String
check_tags kind querying channel rows [] = error (new_error (codes "Tags 至少需要一个"))
check_tags kind (some e) channel rows (t ∷ ts) =
    error (wrap (codes "query running mirror run failed") e)
check_tags kind none channel rows (t ∷ ts) =
    if has_running channel rows then error (new_error (codes "该通道有执行中的任务,请稍后再试")) else done kind

unfoldable pub check_kind :
    (kind : String)
    → (querying : Option GoError) → (channel : ℕ) → RunInput
    → List MirrorRun
    → Outcome String
check_kind kind querying channel req rows =
    if (kind =ˢ "publish") || (kind =ˢ "verify")
    then check_tags kind querying channel rows req.tags
    else error (new_error (codes "不支持的执行类别: " ++ codes kind))

unfoldable pub check_run :
    (querying : Option GoError) → (channel : ℕ) → RunInput → List MirrorRun → Outcome String
check_run querying channel req rows =
    check_kind (if req.kind =ˢ "" then "publish" else req.kind) querying channel req rows

-- The rest of `ExecuteMirrorRun`, over the rows that stand when it is made: nothing keeps other calls
-- out between the check and it. `id` is the new row's identifier.
unfoldable pub create_run :
    (creating : Option GoError)
    → (id channel : ℕ) → RunInput
    → (kind : String) → List MirrorRun
    → Outcome MirrorRun × List MirrorRun
create_run (some e) id channel req kind rows =
    (error (wrap (codes "create mirror run failed") e), rows)
create_run none id channel req kind rows =
    let run = new_mirror_run id channel kind req in (done run, run ∷ rows)

-- A call of `ExecuteMirrorRun` that no other call comes between.
unfoldable pub admit_run :
    (querying creating : Option GoError)
    → (id channel : ℕ) → RunInput
    → List MirrorRun
    → Outcome MirrorRun × List MirrorRun
admit_run querying creating id channel req rows = elim (check_run querying channel req rows) [
  | error e ↦ (error e, rows)
  | done kind ↦ create_run creating id channel req kind rows
]

pub record Published : Type 0 where
  pub commit : String
  pub tree : String

-- What a run calls. `publish` is `mirror.Publish` for one tag, with the target's credentials.
pub record Publisher : Type 1 where
  pub World : Type 0
  pub now : World → ℕ
  pub cancelled : World → Option GoError
  pub ensure_repo : MirrorChannel → World → Option GoError × World
  pub ensure_target_remote : MirrorTarget → World → Option GoError × World
  pub publish :
      MirrorChannel
      → MirrorTarget
      → Text
      → (allow dry : Bool) → World
      → Outcome (List Published) × World

-- The variables of `executePublish`.
pub record Progress : Type 0 where
  pub run : MirrorRun
  pub steps : List MirrorStep
  pub statuses : List TagStatus
  pub failed : ℕ
  pub divergent : ℕ

-- `statuses[tag] = ...`
unfoldable pub put_status : TagStatus → List TagStatus → List TagStatus
put_status st [] = st ∷ []
put_status st (x ∷ xs) = if same x.tag st.tag then st ∷ xs else x ∷ put_status st xs

abbrev pub publish_step : Text → String → List ℕ → MirrorStep
publish_step tag status detail = record {
  name = codes "发布 " ++ tag;
  status = status;
  detail = detail;
}

-- What the answer for one tag changes; `before` are the steps before this tag's.
unfoldable pub record_result : Text → List MirrorStep → Outcome Published → Progress → Progress
record_result tag before (done r) p = record p {
  steps = before ++ (publish_step tag "success" (utf8 (codes "commit=" ++ codes r.commit)) ∷ []);
  statuses =
      put_status
        (record { tag = tag; status = "success"; detail = []; commit = r.commit; tree = r.tree })
        p.statuses;
}
record_result tag before (error e) p =
    if is_divergent_error e
    then record p {
      run = record p.run { status = "divergent" };
      steps = before ++ (publish_step tag "failed" (utf8 (codes "远端内容不一致,已拒绝覆盖")) ∷ []);
      statuses =
          put_status
            (record {
              tag = tag;
              status = "divergent";
              detail = utf8 e.message;
              commit = "";
              tree = "";
            })
            p.statuses;
      divergent = p.divergent + 1;
    }
    else record p {
      steps = before ++ (publish_step tag "failed" (truncate (utf8 e.message) 512) ∷ []);
      statuses =
          put_status
            (record {
              tag = tag;
              status = "failed";
              detail = truncate (utf8 e.message) 512;
              commit = "";
              tree = "";
            })
            p.statuses;
      failed = p.failed + 1;
    }

module _ (P : Publisher) where
  pub record Saved : Type 0 where
    pub world : Publisher.World P
    pub rows : List MirrorRun

  -- `m.runs.Update(run)`
  unfoldable pub save : MirrorRun → Saved → Saved
  save run s = record s { rows = run ∷ s.rows }

  unfoldable pub first_report : Outcome (List Published) → Outcome Published
  first_report (error e) = error e
  first_report (done []) = error (new_error (codes "空报告"))
  first_report (done (r ∷ rs)) = done r

  -- `publishOne`
  unfoldable pub publish_one :
      MirrorChannel
      → MirrorTarget
      → Text
      → (allow dry : Bool) → Publisher.World P
      → Outcome Published × Publisher.World P
  publish_one ch t tag allow dry w =
      let (err, w1) = Publisher.ensure_repo P ch w in
      elim err [
        | some e ↦ (error e, w1)
        | none ↦
            let (err2, w2) = Publisher.ensure_target_remote P t w1 in
            elim err2 [
              | some e ↦ (error (wrap (codes "配置目标远端失败") e), w2)
              | none ↦
                  let (r, w3) = Publisher.publish P ch t tag allow dry w2 in (first_report r, w3)
            ]
      ]

  module _ (ch : MirrorChannel) (t : MirrorTarget) (allow : Bool) where
    -- The row as it is saved within a round: the steps and, after the answer, the statuses.
    abbrev pub with_steps : Progress → List MirrorStep → MirrorRun
    with_steps p steps = record p.run { steps = steps }

    -- The body of the loop over the tags.
    unfoldable pub publish_tag : Text → Progress × Saved → Progress × Saved
    publish_tag tag (p, s) =
        let s1 = save (with_steps p (p.steps ++ (publish_step tag "running" [] ∷ []))) s in
        let (r, w) = publish_one ch t tag allow false s1.world in
        let p1 = record_result tag p.steps r p in
        let p2 : Progress = record p1 {
          run = record p1.run { steps = p1.steps; tag_statuses = some p1.statuses };
        } in
        (p2, save p2.run (record s1 { world = w }))

    -- The loop; the error is that of the context.
    unfoldable pub publish_tags : List Text → Progress × Saved → Option GoError × (Progress × Saved)
    publish_tags [] st = (none, st)
    publish_tags (tag ∷ tags) st =
        let rest = publish_tags tags (publish_tag tag st) in
        elim (Publisher.cancelled P st.1.world) [ some e ↦ (some e, st) | none ↦ rest ]

    -- The error that `executePublish` returns after the loop.
    unfoldable pub partly_failed : Option GoError → Progress → Option GoError
    partly_failed (some e) p = some e
    partly_failed none p =
        if ltb 0 p.failed || ltb 0 p.divergent
        then some (
            new_error (
              codes "部分 tag 执行失败(失败 "
              ++ (decimal p.failed ++ (codes ",分歧 " ++ (decimal p.divergent ++ codes ")")))))
        else none

    abbrev prepared : MirrorRun → Progress
    prepared run = record {
      run = run;
      steps = record { name = codes "准备源仓库"; status = "success"; detail = [] } ∷ [];
      statuses = [];
      failed = 0;
      divergent = 0;
    }

    -- `executePublish`
    unfoldable pub execute_publish : MirrorRun → Saved → Option GoError × (MirrorRun × Saved)
    execute_publish run s =
        let (err, w) = Publisher.ensure_repo P ch s.world in
        elim err [
          | some e ↦ (some e, (run, record s { world = w }))
          | none ↦
              let (err2, w2) = Publisher.ensure_target_remote P t w in
              let s2 : Saved = record s { world = w2 } in
              elim err2 [
                | some e ↦ (some (wrap (codes "配置目标远端失败") e), (run, s2))
                | none ↦
                    let (stop, (p, s3)) = publish_tags (split_tags run.tags) (prepared run, s2) in
                    (partly_failed stop p, (p.run, s3))
              ]
        ]

    -- The end of `execute`: the state is decided here unless a tag has decided it.
    unfoldable pub finish : (started : ℕ) → Option GoError × (MirrorRun × Saved) → MirrorRun
    finish started (err, (run, s)) =
        let now = Publisher.now P s.world in
        let run1 : MirrorRun = record run { finished_at = some now; duration_ms = now - started } in
        elim err [
          | some e ↦ record run1 {
            status = if run.status =ˢ "running" then "failed" else run.status;
            error = e.message;
          }
          | none ↦ record run1 {
            status = if run.status =ˢ "running" then "success" else run.status;
          }
        ]

    -- The switch of `execute` on the mode of the channel.
    unfoldable pub run_mode : MirrorRun → Saved → Option GoError × (MirrorRun × Saved)
    run_mode run s =
        if ch.mode =ˢ "publish"
        then execute_publish run s
        else if ch.mode =ˢ "backup"
        then (some (new_error (codes "backup 模式将在 P1 提供")), (run, s))
        else (none, (run, s))

    abbrev pub begun : ℕ → MirrorRun → MirrorRun
    begun now run = record run {
      status = "running";
      started_at = some now;
      steps = record { name = codes "准备源仓库"; status = "running"; detail = [] } ∷ [];
    }

    -- `execute`, from the row that it has loaded. The kind of the run is not asked for.
    unfoldable pub execute : MirrorRun → Saved → MirrorRun × Saved
    execute run s =
        let started = Publisher.now P s.world in
        let run1 = begun started run in
        let r = run_mode run1 (save run1 s) in
        let last = finish started r in (last, save last r.1.1)
