-- ===== src/Executor/Errors/Wrapping.antt =====
-- What a context that the executor puts before an error does to the error's class.
use git_sync_core.Prelude.{
  ◌≡◌, refl, ap, Bool, true, false, ◌||◌, ◌&&◌, not, some, List, [], ◌∷◌, ◌++◌, map, arith, ◌==◌,
  Text, codes, contains, has_prefix, to_lower, all, if◌then◌else◌,
}
use git_sync_core.Prelude.TextLaws.{contains_around}
use git_sync_core.Executor.Errors.{
  GoError, wrap, new_error, auth_keywords, network_keywords, config_keywords, git_keywords,
  names_one_of, classify_message, classify_error, classify,
}

lower-append : (s t : Text) → map to_lower (s ++ t) ≡ map to_lower s ++ map to_lower t
lower-append [] t = refl
lower-append (c ∷ s) t = ap (λ (r : Text). to_lower c ∷ r) (lower-append s t)

-- A text that is not empty, does not begin with a space and has no colon.
abbrev tidy : Text → Bool
tidy [] = false
tidy (d ∷ t) = not (d == b' ') && all (λ c. not (c == b':')) (d ∷ t)

contains-space : (m t : Text) → tidy t ≡ true → contains (b' ' ∷ m) t ≡ contains m t
unfolding contains has_prefix
contains-space m [] h = cc
contains-space m (d ∷ t) h = ground arith

names-wrapped :
    (c m : Text) (ks : List Text)
    → all tidy ks ≡ true
    → names_one_of (c ++ (b':' ∷ (b' ' ∷ m))) ks ≡ (names_one_of c ks || names_one_of m ks)
unfolding names_one_of
names-wrapped c m [] h = refl
names-wrapped c m ([] ∷ ks) h = cc
names-wrapped c m ((d ∷ k) ∷ ks) h = ground (
  arith,
  contains_around c (b' ' ∷ m) b':' (d ∷ k),
  contains-space m (d ∷ k),
  names-wrapped c m ks,
)

-- A context in which no class of errors has a keyword.
abbrev pub Neutral : Text → Type 0
Neutral c =
    (names_one_of (map to_lower c) auth_keywords ≡ false)
    × ((names_one_of (map to_lower c) network_keywords ≡ false)
        × ((names_one_of (map to_lower c) config_keywords ≡ false)
            × (names_one_of (map to_lower c) git_keywords ≡ false)))

lower-wrapped :
    (c m : Text)
    → map to_lower (c ++ (b':' ∷ (b' ' ∷ m))) ≡ map to_lower c ++ (b':' ∷ (b' ' ∷ map to_lower m))
unfolding to_lower
lower-wrapped c m = lower-append c (b':' ∷ (b' ' ∷ m))

message-wrapped :
    (c m : Text) → Neutral c → classify_message (c ++ (b':' ∷ (b' ' ∷ m))) ≡ classify_message m
unfolding classify_message
message-wrapped c m h = rw (lower-wrapped c m) (
    ground (
      arith,
      names-wrapped (map to_lower c) (map to_lower m) auth_keywords refl,
      names-wrapped (map to_lower c) (map to_lower m) network_keywords refl,
      names-wrapped (map to_lower c) (map to_lower m) config_keywords refl,
      names-wrapped (map to_lower c) (map to_lower m) git_keywords refl,
    ))

-- An error that is wrapped in a context with no keyword in it has the class it had before,
-- whether the SDK's structured error or the message decides it.
pub classify-wrap :
    (context : Text) (e : GoError)
    → Neutral context
    → classify (some (wrap context e)) ≡ classify (some e)
unfolding classify classify_error wrap
classify-wrap context e h = ground (arith, message-wrapped context e.message h)

-- The error for a repository key that names no repository is a configuration error only where the
-- key has no keyword of the classes that are tried before: a key with `401` or `token` in it makes
-- it an authentication error, one with `eof` or `timeout` in it a network error.
pub missing_repo_class :
    (key : Text)
    → classify (some (new_error (codes "source repo not found: " ++ key))) ≡ (
        if names_one_of (map to_lower key) auth_keywords
        then "auth"
        else if names_one_of (map to_lower key) network_keywords
        then "network"
        else "config")
unfolding classify classify_error classify_message
missing_repo_class key =
    let context = codes "source repo not found" in
    let found : names_one_of (map to_lower context) config_keywords ≡ true =
      unfold names_one_of contains has_prefix to_lower in refl in
    let no_auth : names_one_of (map to_lower context) auth_keywords ≡ false =
      unfold names_one_of contains has_prefix to_lower in refl in
    let no_network : names_one_of (map to_lower context) network_keywords ≡ false =
      unfold names_one_of contains has_prefix to_lower in refl in
    rw (lower-wrapped context key) (
      ground (
        arith,
        found,
        no_auth,
        no_network,
        names-wrapped (map to_lower context) (map to_lower key) auth_keywords refl,
        names-wrapped (map to_lower context) (map to_lower key) network_keywords refl,
        names-wrapped (map to_lower context) (map to_lower key) config_keywords refl,
      ))
