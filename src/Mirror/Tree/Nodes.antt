-- ===== src/Mirror/Tree/Nodes.antt =====
-- File trees without hashes: the specification of `rewriteTree`. A tree of this kind has one
-- rendering as objects, and `mirrored` is what publishing does to it.
use git_sync_core.Prelude.{
  ℕ, suc, Bool, ◌≡◌, Option, some, List, [], ◌∷◌, ◌++◌, Text, codes, if◌then◌else◌,
}
use Prim.Native.Nat.{max}
use git_sync_core.Mirror.Rewrite.{rewrite_module_path}
use git_sync_core.Mirror.Tree.{
  Hash, Mode, dir, regular, executable, symlink, Entry, Object, blob, tree, Source, Mapping,
  is_kept,
}
use git_sync_core.Executor.Environment.{done}

-- `other` is an entry that the builder does not look into: a submodule or a mode that it does not
-- list.
mutual
  pub data Node : Type 0 where
    folder : Nodes → Node
    file : (runs : Bool) → Text → Node
    link : Text → Node
    other : Mode → Hash → Node

  pub data Nodes : Type 0 where
    nil : Nodes
    cons : (name : Text) → Node → Nodes → Nodes

abbrev pub mode_of : Node → Mode
mode_of (folder ns) = dir
mode_of (file runs contents) = if runs then executable else regular
mode_of (link target) = symlink
mode_of (other mode h) = mode

-- The modes of the default branch that is not a symlink.
abbrev pub IsOther : Mode → Type 0
IsOther Mode.empty = Unit
IsOther Mode.deprecated = Unit
IsOther Mode.submodule = Unit
IsOther _ = ⊥

module _ (hash : Object → Hash) where
  -- The objects of a tree.
  unfoldable mutual
    pub hash_node : Node → Hash
    hash_node (folder ns) = hash (tree (entries_of ns))
    hash_node (file runs contents) = hash (blob contents)
    hash_node (link target) = hash (blob target)
    hash_node (other mode h) = h

    pub entries_of : Nodes → List Entry
    entries_of nil = []
    entries_of (cons name n ns) =
        record { name = name; mode = mode_of n; hash = hash_node n } ∷ entries_of ns

  -- The canonical repository has every object of the tree.
  abbrev mutual
    pub Readable : Source → Node → Type 0
    Readable src (folder ns) =
        (src.tree_entries (hash (tree (entries_of ns))) ≡ done (entries_of ns)) × AllReadable src ns
    Readable src (file runs contents) = src.blob_bytes (hash (blob contents)) ≡ done contents
    Readable src (link target) = src.blob_bytes (hash (blob target)) ≡ done target
    Readable src (other mode h) = IsOther mode

    pub AllReadable : Source → Nodes → Type 0
    AllReadable src nil = Unit
    AllReadable src (cons name n ns) = Readable src n × AllReadable src ns

  -- Where objects are found by `get`, every object of the tree is there.
  abbrev mutual
    pub Stored : (Hash → Option Object) → Node → Type 0
    Stored get (folder ns) =
        (get (hash (tree (entries_of ns))) ≡ some (tree (entries_of ns))) × AllStored get ns
    Stored get (file runs contents) = get (hash (blob contents)) ≡ some (blob contents)
    Stored get (link target) = get (hash (blob target)) ≡ some (blob target)
    Stored get (other mode h) = Unit

    pub AllStored : (Hash → Option Object) → Nodes → Type 0
    AllStored get nil = Unit
    AllStored get (cons name n ns) = Stored get n × AllStored get ns

-- How many levels of folders there are.
unfoldable mutual
  pub depth : Node → ℕ
  depth (folder ns) = suc (depth_all ns)
  depth (file runs contents) = 0
  depth (link target) = 0
  depth (other mode h) = 0

  pub depth_all : Nodes → ℕ
  depth_all nil = 0
  depth_all (cons name n ns) = max (depth n) (depth_all ns)

module _ (m : Mapping) where
  -- A file after publishing.
  unfoldable pub mirrored_file : Text → Text
  mirrored_file contents =
      if is_kept m contents then contents else rewrite_module_path contents m.source m.target

  unfoldable mutual
    pub mirrored : Node → Node
    mirrored (folder ns) = folder (all_mirrored ns)
    mirrored (file runs contents) = file runs (mirrored_file contents)
    mirrored (link target) = link target
    mirrored (other mode h) = other mode h

    pub all_mirrored : Nodes → Nodes
    all_mirrored nil = nil
    all_mirrored (cons name n ns) = cons name (mirrored n) (all_mirrored ns)

  -- The paths that are reported: the files that are not kept, in the order of the walk.
  unfoldable mutual
    pub reported : (path : Text) → Node → List Text
    reported path (folder ns) = all_reported (path ++ codes "/") ns
    reported path (file runs contents) = if is_kept m contents then [] else path ∷ []
    reported path (link target) = []
    reported path (other mode h) = []

    pub all_reported : (prefix : Text) → Nodes → List Text
    all_reported prefix nil = []
    all_reported prefix (cons name n ns) = reported (prefix ++ name) n ++ all_reported prefix ns
