-- ===== src/Mirror/Host.antt =====
-- mirror/mirror.go: the options of a publication and their checks, the credentials, and what the package
-- calls. go-git, the git backend, the go command and the operating system are the record `Host`.
use git_sync_core.Prelude.{
  Bool, true, false, not, ◌&&◌, ◌||◌, Option, none, some, List, [], ◌∷◌, ◌++◌, Text, codes,
  is_empty, same, if◌then◌else◌,
}
use git_sync_core.Executor.Errors.{GoError, new_error}
use git_sync_core.Executor.Environment.{Outcome, done, error}
use git_sync_core.Mirror.Names.{validate_name}
use git_sync_core.Mirror.Tree.{Hash, Object, Commit, Source, Mapping}

-- The type of a `gitbackend.AuthConfig`.
pub data AuthKind : Type 0 where
  unset auth_none http_basic http_token ssh : AuthKind
  unknown : Text → AuthKind

pub record AuthConfig : Type 0 where
  pub kind : AuthKind
  pub username : Text
  pub password : Text
  pub token : Text
  pub ssh_key : Text
  pub ssh_key_content : Text
  pub passphrase : Text

pub record Options : Type 0 where
  pub repo_dir : Text
  pub mapping : Mapping
  pub tags : List Text
  pub remote : Text
  pub auth : AuthConfig
  pub allow_overwrite : Bool
  pub dry_run : Bool

pub record TagReport : Type 0 where
  pub tag : Text
  pub source_commit : Text
  pub tree : Text
  pub commit : Text
  pub replaced_files : List Text
  pub verify_cmd : Text
  pub remote_tag_existed : Bool
  pub tree_matched_remote : Bool
  pub overwrote_divergent : Bool

pub record PushOptions : Type 0 where
  pub repo_path : Text
  pub remote : Text
  pub ref_specs : List Text
  pub force : Bool
  pub auth : AuthConfig

-- The credentials of go-git; a key file or its contents are read by go-git.
pub data AuthMethod : Type 0 where
  anonymous : AuthMethod
  basic : (username password : Text) → AuthMethod
  keys_of : (content passphrase : Text) → AuthMethod
  keys_in : (file passphrase : Text) → AuthMethod

-- `goGitAuth`, up to the reading of a key.
unfoldable pub auth_method : AuthKind → AuthConfig → Outcome AuthMethod
auth_method unset a = done anonymous
auth_method auth_none a = done anonymous
auth_method http_basic a = done (basic a.username a.password)
auth_method http_token a = done (basic a.username a.token)
auth_method ssh a =
    if not (is_empty a.ssh_key_content) && is_empty a.ssh_key
    then done (keys_of a.ssh_key_content a.passphrase)
    else done (keys_in a.ssh_key a.passphrase)
auth_method (unknown kind) a = error (new_error (codes "不支持的认证类型: " ++ kind))

-- `opts.Remote`, or the default.
unfoldable pub remote_of : Options → Text
remote_of opts = if is_empty opts.remote then codes "github" else opts.remote

abbrev no_tags : List Text → Bool
no_tags [] = true
no_tags (t ∷ ts) = false

unfoldable pub bad_tag : List Text → Option GoError
bad_tag [] = none
bad_tag (t ∷ ts) =
    let rest = bad_tag ts in elim (validate_name (codes "tag") t) [ some e ↦ some e | none ↦ rest ]

-- `validateOptions`; the first tag is checked twice there, with the same answer.
unfoldable pub validate_options : Options → Option GoError
unfolding bad_tag remote_of
validate_options opts =
    if is_empty opts.repo_dir
    then some (new_error (codes "RepoDir 不能为空"))
    else if no_tags opts.tags
    then some (new_error (codes "Tags 至少需要一个"))
    else if is_empty opts.mapping.source || is_empty opts.mapping.target
    then some (new_error (codes "Mapping.Source / Mapping.Target 不能为空"))
    else if same opts.mapping.source opts.mapping.target
    then some (
        new_error (codes "Mapping.Source 与 Target 相同(" ++ (opts.mapping.source ++ codes "),无改写意义")))
    else elim (bad_tag opts.tags) [
      | some e ↦ some e
      | none ↦ validate_name (codes "remote") (remote_of opts)
    ]

-- A package that the go command has loaded: its errors, as position and message, and its module.
pub record Package : Type 0 where
  pub errors : List (Text × Text)
  pub module_info : Option (Text × Text)

-- The answer to a look-up that may find nothing.
pub data Lookup : Type 0 where
  found : Hash → Lookup
  missing : Lookup
  failed : GoError → Lookup

-- References and objects of one repository: `tag_object` gives the target of an annotated tag.
pub record References : Type 0 where
  pub reference : Text → Outcome Hash
  pub tag_object : Hash → Lookup
  pub commit_object : Hash → Outcome Commit

-- What the package calls; `short_name` is go-git's abbreviation of a reference. The canonical repository is only read, and does not change meanwhile.
pub record Host : Type 1 where
  pub World : Type 0
  pub open_error : Text → Option GoError
  pub canonical : References
  pub short_name : Text → Text
  pub source : Source
  pub remotes : Outcome (List (Text × List Text))
  pub read_file : Text → Outcome Text
  pub keys_error : AuthMethod → Option GoError
  pub backend_error : Option GoError
  pub make_temp : Text → World → Outcome Text × World
  pub remove_all : Text → World → World
  pub init_repo : Text → World → Option GoError × World
  pub create_remote : (name url : Text) → World → Option GoError × World
  -- the temporary repository
  pub work : World → References
  pub find : Hash → World → Outcome Object
  pub put : Object → World → Outcome Hash × World
  pub remote_error : Text → World → Option GoError
  pub list_refs : (remote : Text) → AuthMethod → World → Outcome (List Text)
  pub fetch : (remote spec : Text) → AuthMethod → World → Option GoError × World
  pub set_reference : (name : Text) → Hash → World → Option GoError × World
  pub push : PushOptions → World → Option GoError × World
  -- the directory of the build
  pub mkdir_all : Text → World → Option GoError × World
  pub write_file : (path contents : Text) → (runs : Bool) → World → Option GoError × World
  pub remove : Text → World → World
  pub make_link : (target path : Text) → World → Option GoError × World
  -- `packages.Load` of all packages in a directory, and the order of `packages.Visit`
  pub load_packages : Text → World → Outcome (List Package) × World
  pub visited : List Package → List Package

-- `compareResult`
pub data CompareResult : Type 0 where
  compare_unknown compare_matched compare_mismatched : CompareResult

-- What `checkRemoteTag` returns.
pub record Compared : Type 0 where
  pub result : CompareResult
  pub existed : Bool
  pub overwrote : Bool
  pub problem : Option GoError

-- What a run does, as far as the theorems speak of it.
pub data Event : Type 0 where
  temp_made : Text → Event
  temp_removed : Text → Event
  gate_passed : Text → Event
  compared : Compared → Event
  pushed : PushOptions → Option GoError → Event
