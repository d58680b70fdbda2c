-- ===== src/Channel/Versions.antt =====
-- The matrix of versions of `GetMirrorVersions` (service/mirror_service.go): how the rows of the runs, the
-- newest first, are merged into one cell for each tag and target.
pub mod Merging
use git_sync_core.Prelude.{
  ℕ, ◌==◌, Bool, true, false, ◌&&◌, String, Option, none, some, List, [], ◌∷◌, Text, same,
  if◌then◌else◌, ◌=ˢ◌,
}
use git_sync_core.Channel.Entities.{MirrorRun, TagStatus}

pub record Cell : Type 0 where
  pub state : String
  -- the time is formatted where it is shown
  pub executed_at : Option ℕ
  pub commit : String
  pub tree : String
  pub verify : String

pub record Keyed : Type 0 where
  pub tag : Text
  pub target : ℕ
  pub cell : Cell

abbrev pub new_cell : Cell
new_cell = record {
  state = "unpublished";
  executed_at = none;
  commit = "";
  tree = "";
  verify = "unverified";
}

unfoldable pub is_at : Text → ℕ → Keyed → Bool
is_at tag target c = same c.tag tag && (c.target == target)

-- `cells[tag][target]`
unfoldable pub cell_at : Text → ℕ → List Keyed → Option Cell
cell_at tag target [] = none
cell_at tag target (c ∷ cs) = if is_at tag target c then some c.cell else cell_at tag target cs

-- What one status of a run does to its cell.
unfoldable pub merge_status : MirrorRun → TagStatus → Cell → Cell
merge_status run st c =
    if run.kind =ˢ "verify"
    then (if c.verify =ˢ "unverified"
        then record c { verify = if st.status =ˢ "success" then "passed" else "failed" }
        else c)
    else record c {
      state = st.status;
      executed_at = run.started_at;
      commit = st.commit;
      tree = st.tree;
    }

-- The cell is made where there is none.
unfoldable pub merge_into : MirrorRun → TagStatus → List Keyed → List Keyed
merge_into run st [] =
    record { tag = st.tag; target = run.target_id; cell = merge_status run st new_cell } ∷ []
merge_into run st (c ∷ cs) =
    if is_at st.tag run.target_id c
    then record c { cell = merge_status run st c.cell } ∷ cs
    else c ∷ merge_into run st cs

unfoldable pub merge_statuses : MirrorRun → List TagStatus → List Keyed → List Keyed
merge_statuses run [] cells = cells
merge_statuses run (st ∷ sts) cells = merge_statuses run sts (merge_into run st cells)

-- A column that is no JSON object has no statuses.
unfoldable pub merge_column : MirrorRun → Option (List TagStatus) → List Keyed → List Keyed
merge_column run none cells = cells
merge_column run (some sts) cells = merge_statuses run sts cells

-- The body of the loop over the runs.
unfoldable pub merge_run : MirrorRun → List Keyed → List Keyed
merge_run run cells = merge_column run run.tag_statuses cells

unfoldable pub merge_runs : List MirrorRun → List Keyed → List Keyed
merge_runs [] cells = cells
merge_runs (r ∷ rs) cells = merge_runs rs (merge_run r cells)
