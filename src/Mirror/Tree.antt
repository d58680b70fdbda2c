-- ===== src/Mirror/Tree.antt =====
-- `rewriteTree` of mirror/gitobj.go with the objects of git. The repository that is read and the store
-- of the temporary one are go-git's. A hash is its hexadecimal text. The recursion takes fuel, one
-- for each level of directories; Mirror/Tree/Refines shows that the depth of the tree is enough.
pub mod Nodes
pub mod Refines
pub mod Instances
use git_sync_core.Prelude.{
  ℕ, zero, suc, ltb, Bool, true, false, not, ◌||◌, String, Option, none, some, List, [], ◌∷◌, ◌++◌,
  any, length, ◌==◌, Text, codes, contains, ◌*◌, ◌^◌, if◌then◌else◌,
}
use git_sync_core.Executor.Errors.{GoError, new_error, wrap}
use git_sync_core.Executor.Environment.{Outcome, done, error}
use git_sync_core.Mirror.Rewrite.{rewrite_module_path}

abbrev pub Hash : Type 0
Hash = String

pub data Mode : Type 0 where
  empty dir regular deprecated executable symlink submodule : Mode

pub record Entry : Type 0 where
  pub name : Text
  pub mode : Mode
  pub hash : Hash

pub record Signature : Type 0 where
  pub name : Text
  pub email : Text
  pub time : ℕ
  pub zone : ℕ

pub record Commit : Type 0 where
  pub author : Signature
  pub committer : Signature
  pub tree_hash : Hash
  pub parents : List Hash
  pub message : Text

pub record Tag : Type 0 where
  pub name : Text
  pub tagger : Signature
  pub message : Text
  pub target : Hash

pub data Object : Type 0 where
  blob : Text → Object
  tree : List Entry → Object
  commit : Commit → Object
  tag : Tag → Object

-- What is read of the canonical repository.
pub record Source : Type 0 where
  pub tree_entries : Hash → Outcome (List Entry)
  pub blob_bytes : Hash → Outcome Text

-- The object store of the temporary repository, with the encoding of an object in `put`.
pub record ObjectStore : Type 1 where
  pub State : Type 0
  pub get : Hash → State → Option Object
  pub put : Object → State → Outcome Hash × State

-- The module paths of `Mapping`.
pub record Mapping : Type 0 where
  pub source : Text
  pub target : Text

-- `maxRewriteSize`
abbrev pub max_rewrite_size : ℕ
max_rewrite_size = 8 * 2 ^ 20

-- A blob that is kept as it is: too large, binary, or without the source path.
unfoldable pub is_kept : Mapping → Text → Bool
is_kept m contents =
    ltb max_rewrite_size (length contents)
    || (any (λ c. c == 0) contents || not (contains contents m.source))

module _ (src : Source) (S : ObjectStore) (m : Mapping) where
  -- The builder's fields that change.
  pub record Building : Type 0 where
    pub store : ObjectStore.State S
    pub replaced : List Text

  abbrev pub Build {ℓ} : Type ℓ → Type ℓ
  Build A = Building → Outcome A × Building

  -- `SetEncodedObject` in the temporary repository
  unfoldable pub store_object : Object → Build Hash
  store_object o b = let (r, s) = ObjectStore.put S o b.store in (r, record b { store = s })

  unfoldable pub read_blob : Hash → Outcome Text
  read_blob h = elim (src.blob_bytes h) [
    | error e ↦ error (wrap (codes "读取 blob " ++ (codes h ++ codes " 失败")) e)
    | done contents ↦ done contents
  ]

  -- `copyBlobObject`
  unfoldable pub copy_blob_object : Entry → Build Entry
  copy_blob_object entry b = elim (read_blob entry.hash) [
    | error e ↦ (error e, b)
    | done contents ↦
        let (r, b') = store_object (blob contents) b in
        (elim r [ error e ↦ error e | done h ↦ done entry ], b')
  ]

  -- `entries[i].Hash = h; b.replaced = append(b.replaced, path)`
  unfoldable pub set_blob :
      Entry → (path : Text) → Outcome Hash × Building → Outcome Entry × Building
  set_blob entry path (error e, b) = (error e, b)
  set_blob entry path (done h, b) =
      (done (record entry { hash = h }), record b { replaced = b.replaced ++ (path ∷ []) })

  -- The branch for a regular or an executable file.
  unfoldable pub rewrite_blob : Entry → (path : Text) → Text → Build Entry
  rewrite_blob entry path contents b =
      if is_kept m contents
      then copy_blob_object entry b
      else set_blob entry path
          (store_object (blob (rewrite_module_path contents m.source m.target)) b)

  unfoldable pub rewrite_file : Entry → (path : Text) → Build Entry
  rewrite_file entry path b = elim (read_blob entry.hash) [
    | error e ↦ (error e, b)
    | done contents ↦ rewrite_blob entry path contents b
  ]

  module _ (subtree : Hash → (prefix : Text) → Build Hash) where
    unfoldable pub rewrite_dir : Entry → (path : Text) → Build Entry
    rewrite_dir entry path b =
        let (r, b') = subtree entry.hash (path ++ codes "/") b in
        (elim r [ error e ↦ error e | done h ↦ done (record entry { hash = h }) ], b')

    -- The switch on the mode of an entry.
    unfoldable pub by_mode : Mode → Entry → (path : Text) → Build Entry
    by_mode dir entry path b = rewrite_dir entry path b
    by_mode regular entry path b = rewrite_file entry path b
    by_mode executable entry path b = rewrite_file entry path b
    by_mode symlink entry path b = copy_blob_object entry b
    by_mode empty entry path b = (done entry, b)
    by_mode deprecated entry path b = (done entry, b)
    by_mode submodule entry path b = (done entry, b)

    unfoldable pub then_entry : Entry → Outcome (List Entry) → Outcome (List Entry)
    then_entry entry (error e) = error e
    then_entry entry (done es) = done (entry ∷ es)

    unfoldable pub and_then :
        Outcome Entry × Building → Build (List Entry) → Outcome (List Entry) × Building
    and_then (error e, b) rest = (error e, b)
    and_then (done entry, b) rest = let (r, b') = rest b in (then_entry entry r, b')

    -- The loop over the entries.
    unfoldable pub rewrite_entries : (prefix : Text) → List Entry → Build (List Entry)
    rewrite_entries prefix [] b = (done [], b)
    rewrite_entries prefix (e ∷ es) b =
        and_then (by_mode e.mode e (prefix ++ e.name) b) (rewrite_entries prefix es)

    unfoldable pub store_tree : Outcome (List Entry) × Building → Outcome Hash × Building
    store_tree (error e, b) = (error e, b)
    store_tree (done es, b) = store_object (tree es) b

    -- The body of `rewriteTree`.
    unfoldable pub rewrite_level : Hash → (prefix : Text) → Build Hash
    rewrite_level h prefix b = elim (src.tree_entries h) [
      | error e ↦ (error (wrap (codes "读取源树 " ++ (codes h ++ codes " 失败")) e), b)
      | done entries ↦ store_tree (rewrite_entries prefix entries b)
    ]

  -- `rewriteTree`; the error of the first clause is the model's.
  unfoldable pub rewrite_tree : (fuel : ℕ) → Hash → (prefix : Text) → Build Hash
  rewrite_tree zero h prefix b = (error (new_error (codes "out of fuel")), b)
  rewrite_tree (suc fuel) h prefix b = rewrite_level (rewrite_tree fuel) h prefix b

  -- `synthesizeRefs`: a commit without parents, and a tag that points to it.
  unfoldable pub mirror_commit : Commit → Hash → (tag_name : Text) → Commit
  mirror_commit c tree_hash tag_name = record {
    author = c.author;
    committer = c.committer;
    tree_hash = tree_hash;
    parents = [];
    message =
        codes "mirror "
        ++ (tag_name
            ++ (codes ": from "
                ++ (m.source ++ (codes ", rewritten as " ++ (m.target ++ codes "\n")))));
  }

  unfoldable pub mirror_tag : Commit → Hash → (tag_name : Text) → Tag
  mirror_tag c target tag_name = record {
    name = tag_name;
    tagger = c.committer;
    message =
        m.target
        ++ (codes "@"
            ++ (tag_name
                ++ (codes " (mirror of "
                    ++ (m.source ++ (codes " " ++ (tag_name ++ codes ")\n"))))));
    target = target;
  }

  unfoldable pub synthesize_refs : Commit → Hash → (tag_name : Text) → Build (Hash × Hash)
  synthesize_refs c tree_hash tag_name b =
      let (r, b') = store_object (commit (mirror_commit c tree_hash tag_name)) b in
      elim r [
        | error e ↦ (error e, b')
        | done h ↦
            let (r', b'') = store_object (tag (mirror_tag c h tag_name)) b' in
            (elim r' [ error e ↦ error e | done t ↦ done (h, t) ], b'')
      ]
