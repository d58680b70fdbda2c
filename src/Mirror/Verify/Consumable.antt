-- ===== src/Mirror/Verify/Consumable.antt =====
-- What `VerifyModule` has established when it returns without an error.
use git_sync_core.Prelude.{
  ℕ, zero, suc, Bool, true, false, ◌≡◌, refl, ◌||◌, ◌⊎◌, inl, inr, Option, none, some, List, [],
  ◌∷◌, ◌++◌, Text, codes, is_empty, any, All, arith, Option-cases,
}
use git_sync_core.Prelude.TextLaws.{same_sound}
use git_sync_core.Executor.Errors.{GoError}
use git_sync_core.Executor.Environment.{Outcome, done, error}
use git_sync_core.Mirror.Tree.Refines.{Outcome-cases}
use git_sync_core.Mirror.Names.{validate_name, validate_version, go_mod}
use git_sync_core.Mirror.Host.{Package}
use git_sync_core.Mirror.Compare.{first_error_in, has_no_package}
use git_sync_core.Mirror.Verify.{
  Tools, wrong_module, check_packages, check_loaded, load_and_check, verify_once, after_attempt,
  after_wait, verify_rounds, verify_module, has_module, or_first,
}

module _ (mod_path version : Text) where
  -- A package without errors, of this module in this version where it tells.
  abbrev pub IsOf : Option (Text × Text) → Type 0
  IsOf none = Unit
  IsOf (some (path, v)) = (path ≡ mod_path) × ((v ≡ version) ⊎ (v ≡ []))

  abbrev pub IsFine : Package → Type 0
  IsFine p = (p.errors ≡ []) × IsOf p.module_info

  -- All packages are fine, and one of them names its module.
  abbrev pub Consumable : List Package → Type 0
  Consumable pkgs = All IsFine pkgs × (any (λ (p : Package). has_module p.module_info) pkgs ≡ true)

  wrong_module-none : (m : Option (Text × Text)) → wrong_module mod_path version m ≡ none → IsOf m
  unfolding wrong_module is_empty
  wrong_module-none none h = tt
  wrong_module-none (some (path, [])) h = (same_sound path mod_path (ground arith), inr refl)
  wrong_module-none (some (path, c ∷ v)) h =
      (same_sound path mod_path (ground arith), inl (same_sound (c ∷ v) version (ground arith)))

  first_error_in-none : (es : List (Text × Text)) → first_error_in es ≡ none → es ≡ []
  unfolding first_error_in
  first_error_in-none [] h = refl
  first_error_in-none ((pos, msg) ∷ es) h = cc

  or_first-none : (a b : Option GoError) → or_first a b ≡ none → (a ≡ none) × (b ≡ none)
  or_first-none none b h = (refl, h)
  or_first-none (some e) b h = cc

  check_packages-step :
      (first : Option GoError) (seen : Bool) (p : Package) (ps : List Package)
      → check_packages mod_path version first seen (p ∷ ps) ≡ none
      → (wrong_module mod_path version p.module_info ≡ none)
        × (check_packages mod_path version
              (or_first first (first_error_in p.errors))
              (seen || has_module p.module_info)
              ps
            ≡ none)
  unfolding check_packages
  check_packages-step first seen p ps h = ground arith

  seen_later : (a b c : Bool) → ((a || b) || c) ≡ true → (a || (b || c)) ≡ true
  seen_later a b c h = ground arith

  check_packages-none :
      (first : Option GoError) (seen : Bool) (pkgs : List Package)
      → check_packages mod_path version first seen pkgs ≡ none
      → (first ≡ none)
        × All IsFine pkgs
        × ((seen || any (λ (p : Package). has_module p.module_info) pkgs) ≡ true)
  unfolding check_packages
  check_packages-none first seen [] h = ground arith
  check_packages-none first seen (p ∷ ps) h =
      let (right, later) = check_packages-step first seen p ps h in
      let (clear, fine, named) =
        check_packages-none (or_first first (first_error_in p.errors))
          (seen || has_module p.module_info) ps later in
      let (clear', mine) = or_first-none first (first_error_in p.errors) clear in
      (
        clear',
        ((first_error_in-none p.errors mine, wrong_module-none p.module_info right), fine),
        seen_later seen (has_module p.module_info) _ named,
      )

  check_loaded-none :
      (r : Outcome (List Package))
      → check_loaded mod_path version r ≡ none
      → (pkgs : List Package) × (r ≡ done pkgs) × Consumable pkgs
  unfolding check_loaded has_no_package
  check_loaded-none (error e) h = cc
  check_loaded-none (done []) h = absurd (ground arith)
  check_loaded-none (done (p ∷ ps)) h =
      let (clear, fine, named) = check_packages-none none false (p ∷ ps) (ground arith) in
      (p ∷ ps, refl, (fine, named))

  module _ (T : Tools) where
    abbrev written : (dir : Text) → Tools.World T → Option GoError × Tools.World T
    written dir w = Tools.write_file T (dir ++ codes "/go.mod") (go_mod mod_path version) w

    -- Somewhere the `go.mod` with the requirement was written, and the packages that were loaded
    -- there right afterwards are fine.
    abbrev pub Seen : Type 0
    Seen =
        (dir : Text) × (w : Tools.World T) × (pkgs : List Package) × ((written dir w).0 ≡ none)
        × ((Tools.load T dir (mod_path ++ codes "/...") (written dir w).1).0 ≡ done pkgs)
        × Consumable pkgs

    load_and_check-none :
        (dir : Text) (w : Tools.World T) → (load_and_check mod_path version T dir w).0 ≡ none → Seen
    unfolding load_and_check
    load_and_check-none dir w h = elim (Option-cases (written dir w).0) [
      | inr (e, stop) ↦ absurd (ground arith)
      | inl wrote ↦
          let (pkgs, given, fine) =
            check_loaded-none (Tools.load T dir (mod_path ++ codes "/...") (written dir w).1).0
              (ground arith) in
          (dir, w, pkgs, wrote, given, fine)
    ]

    verify_once-none : (w : Tools.World T) → (verify_once mod_path version T w).0 ≡ none → Seen
    unfolding verify_once
    verify_once-none w h = elim (Outcome-cases (Tools.make_temp T (codes "gomod-verify-*") w).0) [
      | inl (e, stop) ↦ absurd (ground arith)
      | inr (dir, made) ↦
          load_and_check-none dir (Tools.make_temp T (codes "gomod-verify-*") w).1 (ground arith)
    ]

    after_attempt-none :
        (r : Option GoError × Tools.World T)
        (again : GoError → Tools.World T → Option GoError × Tools.World T)
        → (r.0 ≡ none → Seen)
        → ((e : GoError) (w : Tools.World T) → (again e w).0 ≡ none → Seen)
        → (after_attempt mod_path version T r again).0 ≡ none
        → Seen
    unfolding after_attempt
    after_attempt-none (none, w) again now later h = now refl
    after_attempt-none (some e, w) again now later h =
        elim (Option-cases (Tools.context_error T w)) [
          | inr (c, ended) ↦ absurd (ground arith)
          | inl alive ↦ later e w (ground arith)
        ]

    after_wait-none :
        (r : Option GoError × Tools.World T)
        (again : Tools.World T → Option GoError × Tools.World T)
        → ((w : Tools.World T) → (again w).0 ≡ none → Seen)
        → (after_wait mod_path version T r again).0 ≡ none
        → Seen
    unfolding after_wait
    after_wait-none (none, w) again later h = later w h
    after_wait-none (some c, w) again later h = cc

    verify_rounds-none :
        (left : ℕ) (w : Tools.World T) → (verify_rounds mod_path version T left w).0 ≡ none → Seen
    unfolding verify_rounds
    verify_rounds-none zero w h =
        after_attempt-none (verify_once mod_path version T w) _ (verify_once-none w) (λ e w' k. cc)
          h
    verify_rounds-none (suc left) w h =
        after_attempt-none (verify_once mod_path version T w) _ (verify_once-none w)
          (λ e w' k.
            after_wait-none (Tools.wait T 2000 w') _ (λ w''. verify_rounds-none left w'') k)
          h

    -- When `VerifyModule` returns without an error, the module path and the version are accepted names,
    -- and in some directory the `go.mod` that requires that version of the module was written and the
    -- packages of the module were loaded from it at once: each is without errors and, where it
    -- names its module, it is that module in that version or in none; and at least one names it.
    pub verified_means_consumable :
        (w : Tools.World T)
        → (verify_module mod_path version T w).0 ≡ none
        → (validate_name (codes "module") mod_path ≡ none)
          × (validate_version version ≡ none)
          × Seen
    unfolding verify_module
    verified_means_consumable w h = elim (Option-cases (validate_name (codes "module") mod_path)) [
      | inr (e, stop) ↦ absurd (ground arith)
      | inl named ↦ elim (Option-cases (validate_version version)) [
        | inr (e, stop) ↦ absurd (ground arith)
        | inl dated ↦ (named, dated, verify_rounds-none 2 w (ground arith))
      ]
    ]
