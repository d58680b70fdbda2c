-- ===== src/Mirror/Names/Reading.antt =====
-- How git reads a refspec, and that accepted tags are read back from the refspecs built of them.
use git_sync_core.Prelude.{
  ℕ, ◌==◌, Bool, true, false, not, ◌≡◌, refl, Option, none, some, List, [], ◌∷◌, ◌++◌, Text, codes,
  is_empty, all, arith, map, if◌then◌else◌,
}
use git_sync_core.Mirror.Names.{
  is_name_char, bad_name_char, validate_name, is_version_char, bad_version_char, validate_version,
  push_specs, check_spec,
}

-- The pieces of a text between the characters that `at` takes.
unfoldable pub cut : (at : ℕ → Bool) → Text → Text × List Text
cut at [] = ([], [])
cut at (c ∷ s) =
    let (piece, others) = cut at s in if at c then ([], piece ∷ others) else (c ∷ piece, others)

-- A refspec: whether it is forced, its source and its destination.
unfoldable pub parts_of : Bool → Text × List Text → Option (Bool × Text × Text)
parts_of forced (src, []) = none
parts_of forced (src, dst ∷ []) = some (forced, src, dst)
parts_of forced (src, dst ∷ (more ∷ rest)) = none

unfoldable pub read_refspec : Text → Option (Bool × Text × Text)
unfolding cut parts_of
read_refspec [] = none
read_refspec (c ∷ s) =
    if c == b'+'
    then parts_of true (cut (λ d. d == b':') s)
    else parts_of false (cut (λ d. d == b':') (c ∷ s))

pub cut-append :
    (at : ℕ → Bool) (s r : Text)
    → all (λ c. not (at c)) s ≡ true
    → cut at (s ++ r) ≡ (s ++ (cut at r).0, (cut at r).1)
unfolding cut
cut-append at [] r h = refl
cut-append at (c ∷ s) r h = ground (arith, cut-append at s r)

pub cut-at :
    (at : ℕ → Bool) (s r : Text) (c : ℕ)
    → all (λ c. not (at c)) s ≡ true
    → at c ≡ true
    → cut at (s ++ (c ∷ r)) ≡ (s, (let (p, ps) = cut at r in p ∷ ps))
unfolding cut
cut-at at [] r c h e = ground arith
cut-at at (d ∷ s) r c h e = ground (arith, cut-at at s r c)

pub cut-free : (at : ℕ → Bool) (s : Text) → all (λ c. not (at c)) s ≡ true → cut at s ≡ (s, [])
unfolding cut
cut-free at [] h = refl
cut-free at (c ∷ s) h = ground (arith, cut-free at s)

-- The characters of an accepted name or version are none of those that are cut at.
pub name_chars-free :
    (kind whole s : Text) (at : ℕ → Bool)
    → ((c : ℕ) → is_name_char c ≡ true → at c ≡ false)
    → bad_name_char kind whole s ≡ none
    → all (λ c. not (at c)) s ≡ true
unfolding bad_name_char
name_chars-free kind whole [] at out h = refl
name_chars-free kind whole (c ∷ s) at out h =
    ground (arith, out c, name_chars-free kind whole s at out)

pub version_chars-free :
    (whole s : Text) (at : ℕ → Bool)
    → ((c : ℕ) → is_version_char c ≡ true → at c ≡ false)
    → bad_version_char whole s ≡ none
    → all (λ c. not (at c)) s ≡ true
unfolding bad_version_char
version_chars-free whole [] at out h = refl
version_chars-free whole (c ∷ s) at out h = ground (arith, out c, version_chars-free whole s at out)

pub accepted_chars :
    (kind name : Text)
    → validate_name kind name ≡ none
    → (bad_name_char kind name name ≡ none) × (is_empty name ≡ false)
unfolding validate_name
accepted_chars kind name h = ground arith

pub accepted_version_chars :
    (version : Text)
    → validate_version version ≡ none
    → (bad_version_char version version ≡ none) × (is_empty version ≡ false)
unfolding validate_version
accepted_version_chars version h = ground arith

colon_outside : (c : ℕ) → is_name_char c ≡ true → (c == b':') ≡ false
unfolding is_name_char
colon_outside c e = ground arith

module _ (kind tag : Text) (h : validate_name kind tag ≡ none) where
  no_colon : all (λ c. not (c == b':')) tag ≡ true
  no_colon =
      name_chars-free kind tag tag (λ d. d == b':') colon_outside (accepted_chars kind tag h).0

  -- An accepted tag cannot change what its refspecs mean: git reads them as an unforced push of that
  -- tag and of `main` to the same names, and as a forced fetch of that tag to the reference of the
  -- comparison.
  pub specs_name_the_tag :
      (map read_refspec (push_specs tag)
        ≡ some (false, codes "refs/tags/" ++ tag, codes "refs/tags/" ++ tag)
          ∷ (some (false, codes "refs/heads/main", codes "refs/heads/main") ∷ []))
      × (read_refspec (check_spec tag)
          ≡ some (true, codes "refs/tags/" ++ tag, codes "refs/mirror-check/" ++ tag))
  unfolding read_refspec push_specs check_spec
  specs_name_the_tag = (
    ground (
      arith,
      cut-at (λ d. d == b':') tag (codes "refs/tags/" ++ tag) b':' no_colon refl,
      cut-free (λ d. d == b':') tag no_colon,
    ),
    ground (
      arith,
      cut-at (λ d. d == b':') tag (codes "refs/mirror-check/" ++ tag) b':' no_colon refl,
      cut-free (λ d. d == b':') tag no_colon,
    ),
  )
