-- ===== src/Channel/Versions/Merging.antt =====
-- Which run a cell of the matrix shows (service/mirror_service.go).
use git_sync_core.Prelude.{
  ℕ, ◌≡◌, refl, ap, ◌∙◌, false, String, some, List, [], ◌∷◌, ◌++◌, Text, ◌=ˢ◌, arith, Bool-cases,
  inl, inr, ==_iff,
}
use git_sync_core.Prelude.TextLaws.{same_self}
use git_sync_core.Channel.Entities.{MirrorRun, TagStatus}
use git_sync_core.Channel.Versions.{
  Cell, Keyed, new_cell, is_at, cell_at, merge_status, merge_into, merge_statuses, merge_column,
  merge_run, merge_runs,
}

-- The cell that a published or failed tag leaves, but for the state of its verification.
abbrev shown : MirrorRun → TagStatus → String → Cell
shown run st verify = record {
  state = st.status;
  executed_at = run.started_at;
  commit = st.commit;
  tree = st.tree;
  verify = verify;
}

merge_status-shown :
    (run : MirrorRun) (st : TagStatus) (c : Cell)
    → (run.kind =ˢ "verify") ≡ false
    → merge_status run st c ≡ shown run st c.verify
unfolding merge_status
merge_status-shown run st c h = rw (h, merge_status) refl

cell_at-own :
    (tag : Text) (target : ℕ) (c : Cell) (cs : List Keyed)
    → cell_at tag target (record { tag = tag; target = target; cell = c } ∷ cs) ≡ some c
unfolding cell_at is_at
cell_at-own tag target c cs = ground (arith, same_self tag, ==_iff target target)

is_at-cell :
    (tag : Text) (target : ℕ) (c : Cell) (x : Keyed)
    → is_at tag target (record x { cell = c }) ≡ is_at tag target x
unfolding is_at
is_at-cell tag target c x = refl

merge_into-cell_at :
    (run : MirrorRun) (st : TagStatus) (cells : List Keyed)
    → (run.kind =ˢ "verify") ≡ false
    → (v : String) × (cell_at st.tag run.target_id (merge_into run st cells)
        ≡ some (shown run st v))
unfolding cell_at merge_into
merge_into-cell_at run st [] h = (
  "unverified",
  cell_at-own st.tag run.target_id (merge_status run st new_cell) []
      ∙ ap some (merge_status-shown run st new_cell h),
)
merge_into-cell_at run st (x ∷ xs) h = elim (Bool-cases (is_at st.tag run.target_id x)) [
  | inl here ↦ (
    x.cell.verify,
    rw (here, merge_into)
        (rw (is_at-cell st.tag run.target_id (merge_status run st x.cell) x ∙ here)
          (ap some (merge_status-shown run st x.cell h))),
  )
  | inr there ↦
      let (v, e) = merge_into-cell_at run st xs h in (v, rw (there, merge_into) (rw there e))
]

merge_runs-append :
    (rs : List MirrorRun) (old : MirrorRun) (cells : List Keyed)
    → merge_runs (rs ++ (old ∷ [])) cells ≡ merge_run old (merge_runs rs cells)
unfolding merge_runs
merge_runs-append [] old cells = refl
merge_runs-append (r ∷ rs) old cells = merge_runs-append rs old (merge_run r cells)

-- Where the rows come with the newest first, a cell shows the state, the time, the commit and the tree
-- of the oldest run: whatever the newer runs `rs` say of the tag, the cell has what the last row,
-- which published that tag alone, says of it.
pub oldest_run_is_shown :
    (rs : List MirrorRun) (old : MirrorRun) (st : TagStatus)
    → (old.kind =ˢ "verify") ≡ false
    → old.tag_statuses ≡ some (st ∷ [])
    → (c : Cell) × (cell_at st.tag old.target_id (merge_runs (rs ++ (old ∷ [])) []) ≡ some c)
      × (c.state ≡ st.status)
      × (c.executed_at ≡ old.started_at)
      × (c.commit ≡ st.commit)
      × (c.tree ≡ st.tree)
unfolding merge_run merge_column merge_statuses
oldest_run_is_shown rs old st h alone =
    let (v, e) = merge_into-cell_at old st (merge_runs rs []) h in
    let step : merge_run old (merge_runs rs []) ≡ merge_into old st (merge_runs rs []) =
      ap (λ o. merge_column old o (merge_runs rs [])) alone in
    (
      shown old st v,
      ap (cell_at st.tag old.target_id) (merge_runs-append rs old [] ∙ step) ∙ e,
      refl,
      refl,
      refl,
      refl,
    )
