-- ===== src/Mirror/Materialize.antt =====
-- mirror/materialize.go, with `Join`, `Dir` and `Clean` of Go's package `filepath` on Unix. The file
-- system is a parameter. The recursion takes fuel as that of Mirror/Tree does.
use git_sync_core.Prelude.{
  ℕ, zero, suc, ◌==◌, Bool, true, false, not, ◌||◌, Option, none, some, List, [], ◌∷◌, ◌++◌, Text,
  codes, is_empty, same, has_prefix, if◌then◌else◌,
}
use git_sync_core.Executor.Errors.{GoError, new_error, wrap}
use git_sync_core.Executor.Environment.{Outcome, done, error}
use git_sync_core.Mirror.Names.{quoted}
use git_sync_core.Mirror.Tree.{
  Hash, Mode, dir, regular, executable, symlink, Entry, Object, blob, tree,
}

unfoldable pub split_path : Text → Text × List Text
split_path [] = ([], [])
split_path (c ∷ s) =
    let (part, others) = split_path s in
    if c == b'/' then ([], part ∷ others) else (c ∷ part, others)

abbrev pub dot_dot : Text
dot_dot = codes ".."

-- One part of a path; the parts so far stand in reverse.
unfoldable pub add_part : (rooted : Bool) → Text → List Text → List Text
add_part rooted part done_parts =
    if is_empty part || same part (codes ".")
    then done_parts
    else if same part dot_dot
    then elim done_parts [
      | [] ↦ if rooted then [] else dot_dot ∷ []
      | top ∷ rest ↦ if same top dot_dot then dot_dot ∷ (top ∷ rest) else rest
    ]
    else part ∷ done_parts

unfoldable pub clean_parts : (rooted : Bool) → List Text → List Text → List Text
clean_parts rooted done_parts [] = done_parts
clean_parts rooted done_parts (p ∷ ps) = clean_parts rooted (add_part rooted p done_parts) ps

-- The parts, which stand in reverse, with slashes between them and before `behind`.
unfoldable pub with_slashes : List Text → (behind : Text) → Text
with_slashes [] behind = behind
with_slashes (p ∷ []) behind = p ++ behind
with_slashes (p ∷ (q ∷ ps)) behind = with_slashes (q ∷ ps) (b'/' ∷ (p ++ behind))

-- `filepath.Clean`
unfoldable pub clean : Text → Text
unfolding split_path clean_parts with_slashes
clean path =
    let rooted = has_prefix path (codes "/") in
    let (part, others) = split_path path in
    let text = with_slashes (clean_parts rooted [] (part ∷ others)) [] in
    if rooted then b'/' ∷ text else if is_empty text then codes "." else text

-- `filepath.Join` of two elements
unfoldable pub join_path : Text → Text → Text
join_path a b =
    if is_empty a
    then (if is_empty b then [] else clean b)
    else if is_empty b
    then clean a
    else clean (a ++ (b'/' ∷ b))

-- What stands before the last slash, with it.
unfoldable pub up_to_slash : Text → Text
up_to_slash [] = []
up_to_slash (c ∷ s) =
    let rest = up_to_slash s in
    if is_empty rest then (if c == b'/' then c ∷ [] else []) else c ∷ rest

-- `filepath.Dir`
unfoldable pub dir_of : Text → Text
dir_of path = clean (up_to_slash path)

-- The check of a symbolic link before it is made.
unfoldable pub refused_link : (root : Text) → (name path target : Text) → Option GoError
refused_link root name path target =
    if has_prefix target (codes "/")
    then some (new_error (codes "拒绝不安全的 symlink " ++ (name ++ (codes ": 绝对路径 " ++ quoted target))))
    else if not (has_prefix (join_path (dir_of path) target) (clean root ++ (b'/' ∷ [])))
    then some (
        new_error (
          codes "拒绝不安全的 symlink "
          ++ (name ++ (codes ": 目标 " ++ (quoted target ++ codes " 逃逸构建目录")))))
    else none

abbrev pub wrapped : Text → Option GoError → Option GoError
wrapped context none = none
wrapped context (some e) = some (wrap context e)

pub record Disk : Type 1 where
  pub World : Type 0
  pub mkdir_all : Text → World → Option GoError × World
  pub write_file : (path contents : Text) → (runs : Bool) → World → Option GoError × World
  pub remove : Text → World → World
  pub make_link : (target path : Text) → World → Option GoError × World

module _ (D : Disk) (find : Hash → Outcome Object) where
  abbrev Act : Type 0
  Act = Disk.World D → Option GoError × Disk.World D

  abbrev not_found : GoError
  not_found = new_error (codes "object not found")

  -- `storerBlobBytes`
  unfoldable pub blob_bytes : Hash → Outcome Text
  blob_bytes h = elim (find h) [
    | error e ↦ error e
    | done (blob contents) ↦ done contents
    | done other ↦ error not_found
  ]

  unfoldable pub tree_entries : Hash → Outcome (List Entry)
  tree_entries h = elim (find h) [
    | error e ↦ error e
    | done (tree es) ↦ done es
    | done other ↦ error not_found
  ]

  unfoldable pub materialize_file : Entry → (path : Text) → Bool → Act
  materialize_file entry path runs w = elim (blob_bytes entry.hash) [
    | error e ↦ (some e, w)
    | done contents ↦ Disk.write_file D path contents runs w
  ]

  unfoldable pub make_checked_link : Entry → (path target : Text) → Act
  make_checked_link entry path target w =
      let (failed, w') = Disk.make_link D target path (Disk.remove D path w) in
      (wrapped (codes "重建 symlink " ++ (entry.name ++ codes " 失败")) failed, w')

  unfoldable pub materialize_link : (root : Text) → Entry → (path : Text) → Act
  materialize_link root entry path w = elim (blob_bytes entry.hash) [
    | error e ↦ (some e, w)
    | done target ↦ elim (refused_link root entry.name path target) [
      | some e ↦ (some e, w)
      | none ↦ make_checked_link entry path target w
    ]
  ]

  unfoldable pub then_act : Option GoError × Disk.World D → Act → Option GoError × Disk.World D
  then_act (some e, w) next = (some e, w)
  then_act (none, w) next = next w

  module _ (subtree : Hash → (root : Text) → Act) where
    unfoldable pub materialize_entry : Mode → (root : Text) → Entry → Act
    materialize_entry dir root entry w =
        let path = join_path root entry.name in
        then_act (Disk.mkdir_all D path w) (subtree entry.hash path)
    materialize_entry regular root entry w =
        materialize_file entry (join_path root entry.name) false w
    materialize_entry executable root entry w =
        materialize_file entry (join_path root entry.name) true w
    materialize_entry symlink root entry w =
        materialize_link root entry (join_path root entry.name) w
    materialize_entry other root entry w = (none, w)

    unfoldable pub materialize_entries : (root : Text) → List Entry → Act
    materialize_entries root [] w = (none, w)
    materialize_entries root (e ∷ es) w =
        then_act (materialize_entry e.mode root e w) (materialize_entries root es)

  -- `materializeTree`; the error of the first clause is the model's.
  unfoldable pub materialize_tree : (fuel : ℕ) → Hash → (root : Text) → Act
  materialize_tree zero h root w = (some (new_error (codes "out of fuel")), w)
  materialize_tree (suc fuel) h root w = elim (tree_entries h) [
    | error e ↦ (some e, w)
    | done es ↦ materialize_entries (materialize_tree fuel) root es w
  ]
