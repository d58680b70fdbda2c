-- ===== src/Executor/Errors.antt =====
-- executor/error_classify.go, and the errors that it reads. What the platform SDK tells of an error
-- of its own is part of the error here.
pub mod Wrapping
pub mod Tests
use git_sync_core.Prelude.{
  ℕ, Bool, true, false, String, Option, none, some, List, [], ◌∷◌, ◌++◌, map, Text, codes, contains,
  to_lower, any, if◌then◌else◌,
}

-- The answers of the SDK's predicates on its structured error.
pub record ProviderError : Type 0 where
  pub authentication : Bool
  pub rate_limited : Bool
  pub not_found : Bool
  pub server_error : Bool
  pub client_error : Bool

-- `provider` is what `errors.As` finds in the chain of causes.
pub record GoError : Type 0 where
  pub message : Text
  pub provider : Option ProviderError

-- `errors.Newf`
abbrev pub new_error : Text → GoError
new_error m = record { message = m; provider = none }

-- `errors.Wrap(err, context)`
unfoldable pub wrap : Text → GoError → GoError
wrap context e = record e { message = context ++ (b':' ∷ (b' ' ∷ e.message)) }

abbrev pub auth_keywords : List Text
auth_keywords =
    codes "401"
    ∷ (codes "403"
        ∷ (codes "authentication"
            ∷ (codes "unauthorized"
                ∷ (codes "permission denied" ∷ (codes "token" ∷ (codes "credential" ∷ []))))))

abbrev pub network_keywords : List Text
network_keywords =
    codes "timeout"
    ∷ (codes "connection refused"
        ∷ (codes "dial tcp"
            ∷ (codes "network"
                ∷ (codes "i/o error" ∷ (codes "eof" ∷ (codes "no route to host" ∷ []))))))

abbrev pub config_keywords : List Text
config_keywords =
    codes "not found"
    ∷ (codes "does not exist" ∷ (codes "repository not found" ∷ (codes "branch not found" ∷ [])))

abbrev pub git_keywords : List Text
git_keywords =
    codes "non-fast-forward"
    ∷ (codes "conflict"
        ∷ (codes "rejected" ∷ (codes "failed to push" ∷ (codes "fetch first" ∷ []))))

-- The loop over one list of keywords.
unfoldable pub names_one_of : Text → List Text → Bool
names_one_of msg keywords = any (contains msg) keywords

-- The switch on the structured error; `none` where no case applies.
unfoldable pub classify_provider : ProviderError → Option String
classify_provider p =
    if p.authentication
    then some "auth"
    else if p.rate_limited
    then some "network"
    else if p.not_found
    then some "config"
    else if p.server_error
    then some "network"
    else if p.client_error
    then some "config"
    else none

unfoldable pub classify_message : Text → String
classify_message text =
    let msg = map to_lower text in
    if names_one_of msg auth_keywords
    then "auth"
    else if names_one_of msg network_keywords
    then "network"
    else if names_one_of msg config_keywords
    then "config"
    else if names_one_of msg git_keywords
    then "git"
    else "unknown"

-- The part that the switch leaves to the keywords.
unfoldable pub classify_error : GoError → String
classify_error e = elim e.provider [
  | none ↦ classify_message e.message
  | some p ↦ elim (classify_provider p) [ some k ↦ k | none ↦ classify_message e.message ]
]

-- `ClassifyError`; `none` is the nil error.
unfoldable pub classify : Option GoError → String
classify none = ""
classify (some e) = classify_error e
