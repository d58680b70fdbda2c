-- ===== src/Mirror/Verify/Tests.antt =====
-- The theorems on go.mod files and on `VerifyModule` at concrete data.
use git_sync_core.Prelude.{
  ◌≡◌, refl, Bool, true, false, none, some, [], ◌∷◌, codes, same, is_empty, contains, has_prefix,
  has_suffix, if◌then◌else◌,
}
use git_sync_core.Executor.Environment.{done}
use git_sync_core.Channel.Tags.{is_space}
use git_sync_core.Mirror.Names.{
  validate_name, validate_version, bad_name_char, is_name_char, bad_version_char, is_version_char,
}
use git_sync_core.Mirror.GoMod.{module_path_in}
use git_sync_core.Mirror.GoMod.Reading.{comment_is_kept}
use git_sync_core.Mirror.Compare.{first_error_in, has_no_package}
use git_sync_core.Mirror.Verify.{
  Tools, wrong_module, check_packages, check_loaded, load_and_check, verify_once, after_attempt,
  after_wait, verify_rounds, verify_module,
}
use git_sync_core.Mirror.Verify.Consumable.{Seen, verified_means_consumable}

comment_is_kept_example :
    module_path_in (codes "module a/b // old" ∷ []) ≡ done (codes "a/b // old")
unfolding is_space
comment_is_kept_example = comment_is_kept b'a' (codes "/b") b'o' (codes "ld") [] [] refl refl refl

-- The module cannot be loaded before the first wait.
abbrev tools : Tools
tools = record {
  World = Bool;
  make_temp = λ p w. (done p, w);
  remove_all = λ p w. w;
  write_file = λ p c w. (none, w);
  load = λ d p w. (
    done (
        record {
          errors = [];
          module_info = some (codes "a/b", if w then codes "v1" else codes "v0");
        }
        ∷ []),
    w,
  );
  context_error = λ w. none;
  wait = λ ms w. (none, true);
}

verified_means_consumable_example :
    (validate_name (codes "module") (codes "a/b") ≡ none)
    × (validate_version (codes "v1") ≡ none)
    × Seen (codes "a/b") (codes "v1") tools
unfolding verify_module verify_rounds verify_once load_and_check after_attempt after_wait
    check_loaded check_packages wrong_module first_error_in has_no_package validate_name
    validate_version bad_name_char is_name_char bad_version_char is_version_char same is_empty
    contains has_prefix has_suffix
verified_means_consumable_example =
    verified_means_consumable (codes "a/b") (codes "v1") tools false refl
