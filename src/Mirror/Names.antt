-- ===== src/Mirror/Names.antt =====
-- mirror/validate.go, and the texts that mirror/mirror.go and mirror/verify.go build from the names that
-- it accepts. A quoted text of a message is not escaped here.
pub mod Reading
pub mod Requiring
use git_sync_core.Prelude.{
  ℕ, ◌==◌, Bool, true, false, ◌||◌, Option, none, some, List, [], ◌∷◌, ◌++◌, Text, codes, is_empty,
  has_prefix, has_suffix, contains, is_alnum, if◌then◌else◌,
}
use git_sync_core.Executor.Errors.{GoError, new_error}

-- `%q`
abbrev pub quoted : Text → Text
quoted s = b'"' ∷ (s ++ (b'"' ∷ []))

unfoldable pub is_name_char : ℕ → Bool
is_name_char r = is_alnum r || ((r == b'.') || ((r == b'_') || ((r == b'-') || (r == b'/'))))

-- The loop over the characters.
unfoldable pub bad_name_char : (kind name : Text) → Text → Option GoError
bad_name_char kind name [] = none
bad_name_char kind name (r ∷ rs) =
    if is_name_char r
    then bad_name_char kind name rs
    else some
        (new_error (kind ++ (codes " 含非法字符 " ++ (quoted (r ∷ []) ++ (codes ": " ++ quoted name)))))

-- `validateName`
unfoldable pub validate_name : (kind name : Text) → Option GoError
validate_name kind name =
    if is_empty name
    then some (new_error (kind ++ codes " 不能为空"))
    else if has_prefix name (codes "-")
    then some (new_error (kind ++ (codes " 不能以 '-' 开头: " ++ quoted name)))
    else if contains name (codes "..") || contains name (codes "@{")
    then some (new_error (kind ++ (codes " 含非法序列: " ++ quoted name)))
    else elim (bad_name_char kind name name) [
      | some e ↦ some e
      | none ↦
          if has_suffix name (codes ".lock")
            || (has_suffix name (codes "/") || has_suffix name (codes "."))
          then some (new_error (kind ++ (codes " 以非法后缀结尾: " ++ quoted name)))
          else none
    ]

unfoldable pub is_version_char : ℕ → Bool
is_version_char r = is_alnum r || ((r == b'.') || ((r == b'_') || ((r == b'-') || (r == b'+'))))

unfoldable pub bad_version_char : (version : Text) → Text → Option GoError
bad_version_char version [] = none
bad_version_char version (r ∷ rs) =
    if is_version_char r
    then bad_version_char version rs
    else some
        (new_error (codes "version 含非法字符 " ++ (quoted (r ∷ []) ++ (codes ": " ++ quoted version))))

-- `validateVersion`
unfoldable pub validate_version : Text → Option GoError
validate_version version =
    if is_empty version
    then some (new_error (codes "version 不能为空"))
    else if has_prefix version (codes "-")
    then some (new_error (codes "version 不能以 '-' 开头: " ++ quoted version))
    else bad_version_char version version

-- The two specs of `publish`, and the one by which `checkRemoteTag` fetches.
unfoldable pub push_specs : Text → List Text
push_specs tag =
    (codes "refs/tags/" ++ (tag ++ (codes ":refs/tags/" ++ tag)))
    ∷ (codes "refs/heads/main:refs/heads/main" ∷ [])

unfoldable pub check_spec : Text → Text
check_spec tag = codes "+refs/tags/" ++ (tag ++ (codes ":" ++ (codes "refs/mirror-check/" ++ tag)))

-- The file `go.mod` of `verifyOnce`.
unfoldable pub go_mod : (mod_path version : Text) → Text
go_mod mod_path version =
    codes "module verify\n\ngo 1.21\n\nrequire " ++ (mod_path ++ (b' ' ∷ (version ++ (0x0a ∷ []))))
