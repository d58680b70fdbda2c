-- ===== src/Channel/Runs/Statuses.antt =====
-- The statuses of the tags that a run keeps, and what a round of the loop does to them.
use git_sync_core.Prelude.{
  ◌≡◌, refl, true, false, String, Option, none, some, List, [], ◌∷◌, All, arith, Bool-cases, inl,
  inr, Text, same, if◌then◌else◌,
}
use git_sync_core.Prelude.TextLaws.{same_self, same_sound}
use git_sync_core.Executor.Environment.{Outcome, done, error}
use git_sync_core.Channel.Entities.{MirrorStep, TagStatus}
use git_sync_core.Channel.Runs.{Published, Progress, put_status, record_result, is_divergent_error}

-- The state that the column has for a tag.
unfoldable pub status_of : Text → List TagStatus → Option String
status_of tag [] = none
status_of tag (x ∷ xs) = if same x.tag tag then some x.status else status_of tag xs

same_trans : (a b c : Text) → same a b ≡ true → same a c ≡ same b c
same_trans a b c h = rw (same_sound a b h) refl

same_sym : (a b : Text) → same a b ≡ true → same b a ≡ true
same_sym a b h = rw (same_sound a b h) (same_self b)

pub status_of-put_status :
    (tag : Text) (st : TagStatus) (xs : List TagStatus)
    → status_of tag (put_status st xs)
      ≡ (if same st.tag tag then some st.status else status_of tag xs)
unfolding status_of put_status
status_of-put_status tag st [] = refl
status_of-put_status tag st (x ∷ xs) = elim (Bool-cases (same x.tag st.tag)) [
  | inl e ↦ ground (arith, e, same_trans x.tag st.tag tag e)
  | inr e ↦ elim (Bool-cases (same st.tag tag)) [
    | inl f ↦
        let other : same x.tag tag ≡ false = elim (Bool-cases (same x.tag tag)) [
          | inl g ↦ absurd (ground (arith, e, same_trans x.tag tag st.tag g, same_sym st.tag tag f))
          | inr g ↦ g
        ] in
        ground (arith, e, f, other, status_of-put_status tag st xs)
    | inr f ↦ ground (arith, e, f, status_of-put_status tag st xs)
  ]
]

abbrev pub Succeeded : List TagStatus → Text → Type 0
Succeeded sts tag = status_of tag sts ≡ some "success"

-- Where nothing has failed so far, every tag of the list has succeeded.
abbrev pub AllWell : List Text → Progress → Type 0
AllWell tags p = p.failed ≡ 0 → p.divergent ≡ 0 → All (Succeeded p.statuses) tags

Succeeded-put_status :
    (st : TagStatus) (xs : List TagStatus) (tags : List Text)
    → st.status ≡ "success"
    → All (Succeeded xs) tags
    → All (Succeeded (put_status st xs)) tags
Succeeded-put_status st xs [] h a = tt
Succeeded-put_status st xs (t ∷ ts) h (a, rest) =
    (ground (arith, status_of-put_status t st xs), Succeeded-put_status st xs ts h rest)

pub record_result-AllWell :
    (tag : Text) (before : List MirrorStep) (r : Outcome Published) (tags : List Text)
    (p : Progress)
    → AllWell tags p
    → AllWell (tag ∷ tags) (record_result tag before r p)
unfolding record_result
record_result-AllWell tag before (done x) tags p h f d =
    let st : TagStatus = record {
      tag = tag;
      status = "success";
      detail = [];
      commit = x.commit;
      tree = x.tree;
    } in
    (
      ground (arith, status_of-put_status tag st p.statuses, same_self tag),
      Succeeded-put_status st p.statuses tags refl (h f d),
    )
record_result-AllWell tag before (error e) tags p h f d = elim (Bool-cases (is_divergent_error e)) [
  | inl g ↦ absurd (ground (arith, g))
  | inr g ↦ absurd (ground (arith, g))
]
