-- ===== src/Mirror/Verify.antt =====
-- mirror/verify.go. The go command, the file system and the context are parameters.
pub mod Consumable
pub mod Tests
use git_sync_core.Prelude.{
  ℕ, zero, suc, ◌==◌, Bool, true, false, not, ◌&&◌, ◌||◌, Option, none, some, List, [], ◌∷◌, ◌++◌,
  Text, codes, is_empty, same, decimal, if◌then◌else◌,
}
use git_sync_core.Executor.Errors.{GoError, new_error, wrap}
use git_sync_core.Executor.Environment.{Outcome, done, error}
use git_sync_core.Mirror.Names.{validate_name, validate_version, go_mod}
use git_sync_core.Mirror.Host.{Package}
use git_sync_core.Mirror.Compare.{first_error_in, has_no_package}

-- `verifyAttempts` and `verifyRetryWait`, in milliseconds
abbrev pub verify_attempts : ℕ
verify_attempts = 3

abbrev pub verify_retry_wait : ℕ
verify_retry_wait = 2000

pub record Tools : Type 1 where
  pub World : Type 0
  pub make_temp : Text → World → Outcome Text × World
  pub remove_all : Text → World → World
  pub write_file : (path contents : Text) → World → Option GoError × World
  -- `packages.Load` of a pattern in a directory
  pub load : (dir pattern : Text) → World → Outcome (List Package) × World
  pub context_error : World → Option GoError
  -- the error of the context where it ends first
  pub wait : (ms : ℕ) → World → Option GoError × World

abbrev pub or_first : Option GoError → Option GoError → Option GoError
or_first (some e) later = some e
or_first none later = later

-- `fmt.Errorf("未获取到模块信息: %w", firstErr)`; `%w` writes a nil error so.
abbrev pub no_module : Option GoError → GoError
no_module none = new_error (codes "未获取到模块信息: %!w(<nil>)")
no_module (some e) = wrap (codes "未获取到模块信息") e

abbrev pub has_module : Option (Text × Text) → Bool
has_module none = false
has_module (some m) = true

module _ (mod_path version : Text) where
  -- What is wrong with the module of a package.
  unfoldable pub wrong_module : Option (Text × Text) → Option GoError
  wrong_module none = none
  wrong_module (some (path, v)) =
      if not (same path mod_path)
      then some (
          new_error (
            codes "身份不符: " ++ (mod_path ++ (b'@' ∷ (version ++ (codes " 的 go.mod 声明为 " ++ path))))))
      else if not (same v version) && not (is_empty v)
      then some (new_error (codes "版本不符: 解析为 " ++ (v ++ (codes " 而非 " ++ version))))
      else none

  -- The loop over the packages, with `firstErr` and `seenModule`, and what follows it.
  unfoldable pub check_packages :
      (first : Option GoError) → (seen : Bool) → List Package → Option GoError
  check_packages first seen [] = if seen then first else some (no_module first)
  check_packages first seen (p ∷ ps) =
      let rest =
        check_packages (or_first first (first_error_in p.errors)) (seen || has_module p.module_info)
          ps in
      elim (wrong_module p.module_info) [ some e ↦ some e | none ↦ rest ]

  -- What `verifyOnce` makes of the loaded packages.
  unfoldable pub check_loaded : Outcome (List Package) → Option GoError
  check_loaded (error e) = some (wrap (codes "解析模块失败") e)
  check_loaded (done pkgs) =
      if has_no_package pkgs
      then some (new_error (codes "未解析到任何包"))
      else check_packages none false pkgs

  module _ (T : Tools) where
    open T use {World}

    unfoldable pub load_and_check : (dir : Text) → World → Option GoError × World
    load_and_check dir w =
        let (problem, w') =
          Tools.write_file T (dir ++ codes "/go.mod") (go_mod mod_path version) w in
        elim problem [
          | some e ↦ (some e, w')
          | none ↦
              let (loaded, w'') = Tools.load T dir (mod_path ++ codes "/...") w' in
              (check_loaded loaded, w'')
        ]

    -- `verifyOnce`
    unfoldable pub verify_once : World → Option GoError × World
    verify_once w =
        let (made, w') = Tools.make_temp T (codes "gomod-verify-*") w in
        elim made [
          | error e ↦ (some e, w')
          | done dir ↦
              let (problem, w'') = load_and_check dir w' in (problem, Tools.remove_all T dir w'')
        ]

    abbrev pub given_up : GoError → GoError
    given_up last =
        wrap
          (codes "验证 "
            ++ (mod_path
                ++ (b'@'
                    ∷ (version
                        ++ (codes " 失败(proxy 回源可能有数秒延迟,已重试 "
                            ++ (decimal verify_attempts ++ codes " 次)"))))))
          last

    abbrev pub Attempt : Type 0
    Attempt = World → Option GoError × World

    -- What follows an attempt: the end by success or by the context, or `again`.
    unfoldable pub after_attempt :
        Option GoError × World → (GoError → Attempt) → Option GoError × World
    after_attempt (none, w) again = (none, w)
    after_attempt (some e, w) again = elim (Tools.context_error T w) [
      | some c ↦ (some c, w)
      | none ↦ again e w
    ]

    unfoldable pub after_wait : Option GoError × World → Attempt → Option GoError × World
    after_wait (some c, w) again = (some c, w)
    after_wait (none, w) again = again w

    -- The loop of `VerifyModule`, by the attempts that are left after this one.
    unfoldable pub verify_rounds : (left : ℕ) → Attempt
    verify_rounds zero w = after_attempt (verify_once w) (λ e w'. (some (given_up e), w'))
    verify_rounds (suc left) w =
        after_attempt (verify_once w)
          (λ e w'. after_wait (Tools.wait T verify_retry_wait w') (verify_rounds left))

    -- `VerifyModule`
    unfoldable pub verify_module : Attempt
    verify_module w = elim (validate_name (codes "module") mod_path) [
      | some e ↦ (some e, w)
      | none ↦ elim (validate_version version) [ some e ↦ (some e, w) | none ↦ verify_rounds 2 w ]
    ]
