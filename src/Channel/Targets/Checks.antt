-- ===== src/Channel/Targets/Checks.antt =====
-- What the checks of a target keep out of the table (service/mirror_service.go).
use git_sync_core.Prelude.{
  ◌≡◌, refl, subst, true, false, Text, codes, is_empty, has_prefix, ◌||◌, arith, inl, inr, ◌⊎◌,
  Bool-cases,
}
use git_sync_core.Executor.Environment.{Outcome, done, error}
use git_sync_core.Executor.Run.Whole.{Outcome-cases}
use git_sync_core.Channel.Entities.{MirrorTarget}
use git_sync_core.Channel.Tags.{trim_space}
use git_sync_core.Channel.Targets.{
  TargetInput, checked_cred_type, validate_target_input, stored_credential, with_credential,
  updated_target,
}

-- What holds of a target whose row was made from an input, over a row with the credential `old`.
abbrev pub Checked : (Text → Outcome Text) → Text → Text → MirrorTarget → Type 0
Checked encrypt old given t =
    (has_prefix t.remote (codes "-") ≡ false)
    × (is_empty (trim_space t.repo_url) ≡ false)
    × (((is_empty given ≡ true) × (t.credential ≡ old)) ⊎ (encrypt given ≡ done t.credential))

abbrev Safe : TargetInput → Type 0
Safe req =
    (has_prefix req.remote (codes "-") ≡ false) × (is_empty (trim_space req.repo_url) ≡ false)

abbrev SafeOutcome : TargetInput → Outcome TargetInput → Type 0
SafeOutcome req (error e) = Unit
SafeOutcome req (done r) = Safe r × (r.credential ≡ req.credential)

validate-Safe : (req : TargetInput) → SafeOutcome req (validate_target_input req)
unfolding validate_target_input
validate-Safe req =
    elim (Bool-cases (is_empty (trim_space req.remote) || has_prefix req.remote (codes "-"))) [
      | inl bad ↦ rw (bad, validate_target_input) tt
      | inr ok ↦ elim (Bool-cases (is_empty (trim_space req.repo_url))) [
        | inl bad ↦ rw (ok, bad, validate_target_input) tt
        | inr url ↦ elim (Outcome-cases (checked_cred_type req.cred_type req.credential)) [
          | inl (e, f) ↦ rw (ok, url, f, validate_target_input) tt
          | inr (k, f) ↦ rw (ok, url, f, validate_target_input) ((ground arith, url), refl)
        ]
      ]
    ]

abbrev StoredOutcome : (Text → Outcome Text) → Text → Text → Outcome Text → Type 0
StoredOutcome encrypt old given (error e) = Unit
StoredOutcome encrypt old given (done c) =
    ((is_empty given ≡ true) × (c ≡ old)) ⊎ (encrypt given ≡ done c)

stored-outcome :
    (encrypt : Text → Outcome Text) (given old : Text)
    → StoredOutcome encrypt old given (stored_credential encrypt given old)
unfolding stored_credential
stored-outcome encrypt given old = elim (Bool-cases (is_empty given)) [
  | inl none_given ↦ rw (none_given, stored_credential) (inl (none_given, refl))
  | inr some_given ↦ elim (Outcome-cases (encrypt given)) [
    | inl (e, f) ↦ rw (some_given, f, stored_credential) tt
    | inr (c, f) ↦ rw (some_given, f, stored_credential) (inr f)
  ]
]

abbrev CheckedOutcome : (Text → Outcome Text) → Text → Text → Outcome MirrorTarget → Type 0
CheckedOutcome encrypt old given (error e) = Unit
CheckedOutcome encrypt old given (done t) = Checked encrypt old given t

with_credential-Checked :
    (encrypt : Text → Outcome Text) (req : TargetInput) (t : MirrorTarget)
    → Safe req
    → CheckedOutcome encrypt t.credential req.credential (with_credential encrypt req t)
unfolding with_credential
with_credential-Checked encrypt req t (remote, url) =
    let k = stored-outcome encrypt req.credential t.credential in
    elim (Outcome-cases (stored_credential encrypt req.credential t.credential)) [
      | inl (e, f) ↦ rw (f, with_credential) tt
      | inr (c, f) ↦
          rw (f, with_credential)
            (remote, url, subst (StoredOutcome encrypt t.credential req.credential) f k)
    ]

updated-Checked :
    (encrypt : Text → Outcome Text) (req : TargetInput) (t : MirrorTarget)
    → CheckedOutcome encrypt t.credential req.credential (updated_target encrypt req t)
unfolding updated_target
updated-Checked encrypt req t =
    let k = validate-Safe req in
    elim (Outcome-cases (validate_target_input req)) [
      | inl (e, f) ↦ rw (f, updated_target) tt
      | inr (r, f) ↦
          let (safe, same) : SafeOutcome req (done r) = subst (SafeOutcome req) f k in
          rw (f, updated_target)
            (subst
              (λ given. CheckedOutcome encrypt t.credential given (with_credential encrypt r t))
              same (with_credential-Checked encrypt r t safe))
    ]

-- A target that an update saves has a remote that git cannot take for an option and a repository
-- address that is not blank, and its credential is the encrypted one of the request, or, where the
-- request has none, the one that was stored: no credential is stored in the clear.
pub updated_target-Checked :
    (encrypt : Text → Outcome Text) (req : TargetInput) (t u : MirrorTarget)
    → updated_target encrypt req t ≡ done u
    → Checked encrypt t.credential req.credential u
updated_target-Checked encrypt req t u h =
    subst (CheckedOutcome encrypt t.credential req.credential) h (updated-Checked encrypt req t)
