-- ===== src/Mirror/Tests.antt =====
-- Runs of package mirror/, and its theorems at concrete data.
use git_sync_core.Prelude.{
  ◌≡◌, refl, true, false, none, List, [], ◌∷◌, Text, codes, arith, if◌then◌else◌, ◌=ˢ◌, is_empty,
  contains, has_prefix, has_suffix, same,
}
use git_sync_core.Executor.Errors.{new_error}
use git_sync_core.Executor.Environment.{done, error}
use git_sync_core.Mirror.Names.{
  go_mod, validate_name, validate_version, bad_name_char, is_name_char, bad_version_char,
  is_version_char,
}
use git_sync_core.Mirror.Names.Reading.{cut}
use git_sync_core.Mirror.Names.Requiring.{
  has_slashes, strip_comment, strip_comments, lines_of, words, read_go_mod, go_mod_requires_one,
}
use git_sync_core.Mirror.Rewrite.{
  rewrite_module_path, replace_all, match_here, expand, reference, group_name, group_value, closes,
  is_group_char, is_path_char,
}
use git_sync_core.Mirror.Rewrite.Pieces.{joined, apart, left_standing, rewritten_in_pieces}
use git_sync_core.Mirror.Tree.{Source, Mapping, Building, rewrite_tree, submodule}
use git_sync_core.Mirror.Tree.Nodes.{
  folder, file, other, Nodes, nil, cons, hash_node, entries_of, Stored, mirrored, all_reported,
  depth_all, Readable,
}
use git_sync_core.Mirror.Tree.Refines.{Good, rewrite_tree-mirrored}
use git_sync_core.Mirror.Tree.Instances.{digest, memory, memory-IsAddressed}

abbrev mapping : Mapping
mapping = record { source = codes "g.com/a/b"; target = codes "g.com/x/y" }

-- The cases of gitobj_rewrite_test.go.
sub_package :
    rewrite_module_path (codes "import \"g.com/a/b/pkg\"\n") mapping.source mapping.target
    ≡ codes "import \"g.com/x/y/pkg\"\n"
unfolding rewrite_module_path is_empty contains replace_all match_here is_path_char expand reference
    group_name is_group_char group_value same
sub_package = refl

longer_name :
    rewrite_module_path (codes "module g.com/a/b-extra\n") mapping.source mapping.target
    ≡ codes "module g.com/a/b-extra\n"
unfolding rewrite_module_path is_empty contains replace_all match_here is_path_char
longer_name = refl

several :
    rewrite_module_path (codes "g.com/a/b g.com/a/b.c g.com/a/b") mapping.source mapping.target
    ≡ codes "g.com/x/y g.com/a/b.c g.com/x/y"
unfolding rewrite_module_path is_empty contains replace_all match_here is_path_char expand reference
    group_name is_group_char group_value same
several = refl

-- A target with a dollar sign is a template.
dollar : rewrite_module_path (codes "a/b;") (codes "a/b") (codes "x${1}$$y") ≡ codes "xa/b$y;"
unfolding rewrite_module_path is_empty contains replace_all match_here is_path_char expand reference
    group_name is_group_char group_value closes same
dollar = refl

rewritten_in_pieces_example :
    (p : Text) × (qs : List Text) × (codes "g/a g/ab" ≡ joined (codes "g/a") p qs)
    × (rewrite_module_path (codes "g/a g/ab") (codes "g/a") (codes "x") ≡ joined (codes "x") p qs)
    × (apart qs ≡ true)
    × (left_standing (codes "g/a") p qs ≡ false)
unfolding is_path_char is_empty
rewritten_in_pieces_example =
    rewritten_in_pieces b'g' (codes "/a") (codes "g/a g/ab") (codes "x") refl refl refl

go_mod_requires_one_example :
    read_go_mod (go_mod (codes "g.com/x") (codes "v1.0+b"))
    ≡ (codes "module" ∷ (codes "verify" ∷ []))
      ∷ ((codes "go" ∷ (codes "1.21" ∷ []))
          ∷ ((codes "require" ∷ (codes "g.com/x" ∷ (codes "v1.0+b" ∷ []))) ∷ []))
unfolding validate_name is_empty has_prefix contains bad_name_char is_name_char has_suffix
    validate_version bad_version_char is_version_char has_slashes
go_mod_requires_one_example =
    go_mod_requires_one (codes "module") (codes "g.com/x") (codes "v1.0+b") refl refl refl

-- The module path of such a name loses what follows its two slashes, and its version.
slashes_hide_the_version :
    (validate_name (codes "module") (codes "g.com//x") ≡ none)
    × (read_go_mod (go_mod (codes "g.com//x") (codes "v1.0"))
        ≡ (codes "module" ∷ (codes "verify" ∷ []))
          ∷ ((codes "go" ∷ (codes "1.21" ∷ [])) ∷ ((codes "require" ∷ (codes "g.com" ∷ [])) ∷ [])))
unfolding validate_name is_empty has_prefix contains bad_name_char is_name_char has_suffix
    read_go_mod go_mod strip_comments strip_comment lines_of words cut
slashes_hide_the_version = (refl, refl)

abbrev project : Nodes
project = cons (codes "go.mod") (file false (codes "module g.com/a/b")) (
    cons (codes "sub") (folder (cons (codes "x.go") (file false (codes "abc")) nil))
      (cons (codes "vendored") (other submodule "q") nil))

abbrev repository : Source
repository = record {
  tree_entries = λ h.
      if h =ˢ "txxx"
      then done (entries_of digest project)
      else if h =ˢ "tx"
      then done (entries_of digest (cons (codes "x.go") (file false (codes "abc")) nil))
      else error (new_error []);
  blob_bytes = λ h. if h =ˢ "bxxx" then done (codes "abc") else done (codes "module g.com/a/b");
}

abbrev fresh : Building repository memory mapping
fresh = record { store = []; replaced = [] }

readable : Readable digest repository (folder project)
unfolding entries_of digest
readable = (refl, (refl, ((refl, (refl, tt)), (tt, tt))))

rewrite_tree-mirrored_example :
    Good repository memory mapping digest memory-IsAddressed fresh
      (hash_node digest (mirrored mapping (folder project)))
      (λ get. Stored digest get (mirrored mapping (folder project)))
      (all_reported mapping [] project)
      (rewrite_tree repository memory mapping 2 (hash_node digest (folder project)) [] fresh)
unfolding depth_all
rewrite_tree-mirrored_example =
    rewrite_tree-mirrored repository memory mapping digest memory-IsAddressed project 2 fresh
      (omega arith) readable
