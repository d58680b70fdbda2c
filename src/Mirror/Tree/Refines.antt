-- ===== src/Mirror/Tree/Refines.antt =====
-- `rewriteTree` does what `mirrored` says, on the objects of git.
use git_sync_core.Prelude.{
  ℕ, zero, suc, ◌≤◌, true, false, ◌≡◌, refl, sym, ap, subst, ◌∙◌, ◌⊎◌, inl, inr, Option, some, List,
  [], ◌∷◌, ◌++◌, Text, codes, arith, Bool-cases, if◌then◌else◌,
}
use mathlib.Core.List.{append-nil, append_assoc}
use git_sync_core.Executor.Errors.{GoError}
use git_sync_core.Executor.Environment.{Outcome, done, error}
use git_sync_core.Mirror.Rewrite.{rewrite_module_path}
use git_sync_core.Mirror.Tree.{
  Hash, Mode, dir, regular, executable, symlink, Entry, Object, blob, tree, Source, ObjectStore,
  Mapping, is_kept, Building, Build, store_object, set_blob, read_blob, copy_blob_object,
  rewrite_blob, rewrite_file, rewrite_dir, by_mode, then_entry, and_then, store_tree,
  rewrite_entries, rewrite_level, rewrite_tree,
}
use git_sync_core.Mirror.Tree.Nodes.{
  Node, folder, file, link, other, Nodes, nil, cons, mode_of, IsOther, hash_node, entries_of,
  Readable, AllReadable, Stored, AllStored, depth, depth_all, mirrored_file, mirrored, all_mirrored,
  reported, all_reported,
}

-- What git documents of its object store: an object is found under its hash, and no object that is
-- there is changed.
pub record IsAddressed (S : ObjectStore) (hash : Object → Hash) : Type 0 where
  pub put-hash :
      (o : Object) (s : ObjectStore.State S) {h : Hash}
      → (ObjectStore.put S o s).0 ≡ done h
      → h ≡ hash o
  pub put-get :
      (o : Object) (s : ObjectStore.State S) {h : Hash}
      → (ObjectStore.put S o s).0 ≡ done h
      → ObjectStore.get S (hash o) (ObjectStore.put S o s).1 ≡ some o
  pub put_keeps :
      (o : Object) (s : ObjectStore.State S) (k : Hash) (p : Object)
      → ObjectStore.get S k s ≡ some p
      → ObjectStore.get S k (ObjectStore.put S o s).1 ≡ some p

-- The store has refused an object with this error.
abbrev pub Refused : ObjectStore → GoError → Type 0
Refused S e = (o : Object) × (s : ObjectStore.State S) × ((ObjectStore.put S o s).0 ≡ error e)

pub Outcome-cases :
    {A : Type 0} (r : Outcome A) → ((e : GoError) × (r ≡ error e)) ⊎ ((a : A) × (r ≡ done a))
Outcome-cases (error e) = inl (e, refl)
Outcome-cases (done a) = inr (a, refl)

module _ (src : Source) (S : ObjectStore) (m : Mapping) (hash : Object → Hash)
    (A : IsAddressed S hash) where
  abbrev pub found_in : Building src S m → Hash → Option Object
  found_in b k = ObjectStore.get S k b.store

  -- Every object stays where it was.
  abbrev pub Grows : Building src S m → Building src S m → Type 0
  Grows b b' = (k : Hash) (p : Object) → found_in b k ≡ some p → found_in b' k ≡ some p

  store_object-Grows : (o : Object) (b : Building src S m) → Grows b (store_object src S m o b).1
  unfolding store_object
  store_object-Grows o b k p h = A.put_keeps o b.store k p h

  mutual
    Stored-Grows :
        (n : Node) (b b' : Building src S m)
        → Grows b b'
        → Stored hash (found_in b) n
        → Stored hash (found_in b') n
    Stored-Grows (folder ns) b b' g (h, hs) = (g _ _ h, AllStored-Grows ns b b' g hs)
    Stored-Grows (file runs contents) b b' g h = g _ _ h
    Stored-Grows (link target) b b' g h = g _ _ h
    Stored-Grows (other mode x) b b' g h = tt

    AllStored-Grows :
        (ns : Nodes) (b b' : Building src S m)
        → Grows b b'
        → AllStored hash (found_in b) ns
        → AllStored hash (found_in b') ns
    AllStored-Grows nil b b' g h = tt
    AllStored-Grows (cons name n ns) b b' g (h, hs) =
        (Stored-Grows n b b' g h, AllStored-Grows ns b b' g hs)

  -- What a step may return: an error of the store, or what is expected.
  abbrev pub Ends : {X : Type 0} → Outcome X → X → Type 0 → Type 0
  Ends (error e) x P = Refused S e
  Ends (done y) x P = (y ≡ x) × P

  abbrev pub Good :
      {X : Type 0} (b : Building src S m) (x : X) (want : (Hash → Option Object) → Type 0)
      (paths : List Text)
      → Outcome X × Building src S m
      → Type 0
  Good b x want paths (r, b') =
      Grows b b' × Ends r x (want (found_in b') × (b'.replaced ≡ b.replaced ++ paths))

  store_object-Good :
      (o : Object) (b : Building src S m)
      → Good b (hash o) (λ get. get (hash o) ≡ some o) [] (store_object src S m o b)
  unfolding store_object
  store_object-Good o b = (
    store_object-Grows o b,
    elim (Outcome-cases (ObjectStore.put S o b.store).0) [
      | inl (e, q) ↦ rw q (o, b.store, q)
      | inr (h, q) ↦
          rw q (A.put-hash o b.store q, (A.put-get o b.store q, sym (append-nil b.replaced)))
    ],
  )

  -- What is done with an outcome.
  module _ {X Y : Type 0} (b : Building src S m) (x : X) (y : Y)
      (want : (Hash → Option Object) → Type 0) (before : List Text) where
    Ends-map :
        (f : X → Y)
        → f x ≡ y
        → (r : Outcome X × Building src S m) → Good b x want before r
        → Good b y want before (elim r.0 [ error e ↦ error e | done z ↦ done (f z) ], r.1)
    Ends-map f same (error e, b') g = g
    Ends-map f same (done z, b') (g, (e, w)) = (g, (ap f e ∙ same, w))

  module _ (name : Text) (mode : Mode) where
    abbrev entry : Hash → Entry
    entry h = record { name = name; mode = mode; hash = h }

    copy_blob_object-Good :
        (contents : Text) (b : Building src S m)
        → src.blob_bytes (hash (blob contents)) ≡ done contents
        → Good b
            (entry (hash (blob contents)))
            (λ get. get (hash (blob contents)) ≡ some (blob contents))
            []
            (copy_blob_object src S m (entry (hash (blob contents))) b)
    unfolding copy_blob_object read_blob
    copy_blob_object-Good contents b read =
        rw (copy_blob_object, read_blob, read)
          (Ends-map b (hash (blob contents)) (entry (hash (blob contents)))
            (λ get. get (hash (blob contents)) ≡ some (blob contents)) []
            (λ _. entry (hash (blob contents))) refl (store_object src S m (blob contents) b)
            (store_object-Good (blob contents) b))

    set_blob-Good :
        (path contents : Text) (b : Building src S m) (r : Outcome Hash × Building src S m)
        → Good b
            (hash (blob contents))
            (λ get. get (hash (blob contents)) ≡ some (blob contents))
            []
            r
        → (h : Hash)
        → Good b
            (entry (hash (blob contents)))
            (λ get. get (hash (blob contents)) ≡ some (blob contents))
            (path ∷ [])
            (set_blob src S m (entry h) path r)
    unfolding set_blob
    set_blob-Good path contents b (error e, b') g h = g
    set_blob-Good path contents b (done x, b') (g, (e, (w, same))) h = (
      g,
      (ap entry e, (w, ap (λ ps. ps ++ (path ∷ [])) same ∙ append_assoc b.replaced [] (path ∷ []))),
    )

    rewrite_file-Good :
        (path contents : Text) (b : Building src S m)
        → src.blob_bytes (hash (blob contents)) ≡ done contents
        → Good b
            (entry (hash (blob (mirrored_file m contents))))
            (λ get.
              get (hash (blob (mirrored_file m contents))) ≡ some (blob (mirrored_file m contents)))
            (if is_kept m contents then [] else path ∷ [])
            (rewrite_file src S m (entry (hash (blob contents))) path b)
    unfolding mirrored_file rewrite_file rewrite_blob read_blob
    rewrite_file-Good path contents b read =
        let rewritten = rewrite_module_path contents m.source m.target in
        elim (Bool-cases (is_kept m contents)) [
          | inl kept ↦
              rw (rewrite_file, read_blob, read, rewrite_blob, kept)
                (copy_blob_object-Good contents b read)
          | inr changed ↦
              rw (rewrite_file, read_blob, read, rewrite_blob, changed)
                (set_blob-Good path rewritten b (store_object src S m (blob rewritten) b)
                  (store_object-Good (blob rewritten) b) (hash (blob contents)))
        ]

  Grows-trans : (b b' b'' : Building src S m) → Grows b b' → Grows b' b'' → Grows b b''
  Grows-trans b b' b'' g g' k p h = g' k p (g k p h)

  module _ (sub : Hash → Text → Build src S m Hash) where
    store_tree-Good :
        (ns : Nodes) (paths : List Text) (b : Building src S m)
        (r : Outcome (List Entry) × Building src S m)
        → Good b (entries_of hash ns) (λ get. AllStored hash get ns) paths r
        → Good b
            (hash (tree (entries_of hash ns)))
            (λ get. Stored hash get (folder ns))
            paths
            (store_tree src S m sub r)
    unfolding store_tree
    store_tree-Good ns paths b (error e, b') g = g
    store_tree-Good ns paths b (done es, b') (g, (e, (w, same))) =
        subst
          (λ es'.
            Good b (hash (tree (entries_of hash ns))) (λ get. Stored hash get (folder ns)) paths
              (store_object src S m (tree es') b'))
          (sym e)
          (stored (store_object src S m (tree (entries_of hash ns)) b')
            (store_object-Good (tree (entries_of hash ns)) b'))
      where
        stored :
            (r : Outcome Hash × Building src S m)
            → Good b'
                (hash (tree (entries_of hash ns)))
                (λ get. get (hash (tree (entries_of hash ns))) ≡ some (tree (entries_of hash ns)))
                []
                r
            → Good b (hash (tree (entries_of hash ns))) (λ get. Stored hash get (folder ns)) paths r
        stored (error x, b'') (g', e') = (Grows-trans b b' b'' g g', e')
        stored (done h, b'') (g', (e', (there, same'))) = (
          Grows-trans b b' b'' g g',
          (e', ((there, AllStored-Grows ns b' b'' g' w), same' ∙ append-nil b'.replaced ∙ same)),
        )

    and_then-Good :
        (name : Text) (n : Node) (ns : Nodes) (here there : List Text) (b : Building src S m)
        (r : Outcome Entry × Building src S m) (rest : Build src S m (List Entry))
        → Good b (entry name (mode_of n) (hash_node hash n)) (λ get. Stored hash get n) here r
        → ((b' : Building src S m)
            → Good b' (entries_of hash ns) (λ get. AllStored hash get ns) there (rest b'))
        → Good b
            (entries_of hash (cons name n ns))
            (λ get. AllStored hash get (cons name n ns))
            (here ++ there)
            (and_then src S m sub r rest)
    unfolding and_then then_entry entries_of
    and_then-Good name n ns here there b (error e, b') rest g more = g
    and_then-Good name n ns here there b (done x, b') rest (g, (e, (w, same))) more =
        after (rest b') (more b')
      where
        after :
            (r : Outcome (List Entry) × Building src S m)
            → Good b' (entries_of hash ns) (λ get. AllStored hash get ns) there r
            → Good b
                (entries_of hash (cons name n ns))
                (λ get. AllStored hash get (cons name n ns))
                (here ++ there)
                (then_entry src S m sub x r.0, r.1)
        after (error y, b'') (g', e') = (Grows-trans b b' b'' g g', e')
        after (done es, b'') (g', (e', (w', same'))) = (
          Grows-trans b b' b'' g g',
          (
            ap (λ y. y ∷ es) e ∙ ap (λ ys. entry name (mode_of n) (hash_node hash n) ∷ ys) e',
            (
              (Stored-Grows n b' b'' g' w, w'),
              same' ∙ ap (λ ps. ps ++ there) same ∙ append_assoc b.replaced here there,
            ),
          ),
        )

    level-Good :
        (ns ms : Nodes) (prefix : Text) (paths : List Text) (b : Building src S m)
        → src.tree_entries (hash (tree (entries_of hash ns))) ≡ done (entries_of hash ns)
        → Good b
            (entries_of hash ms)
            (λ get. AllStored hash get ms)
            paths
            (rewrite_entries src S m sub prefix (entries_of hash ns) b)
        → Good b
            (hash (tree (entries_of hash ms)))
            (λ get. Stored hash get (folder ms))
            paths
            (rewrite_level src S m sub (hash (tree (entries_of hash ns))) prefix b)
    unfolding rewrite_level
    level-Good ns ms prefix paths b read g =
        rw (rewrite_level, read)
          (store_tree-Good ms paths b (rewrite_entries src S m sub prefix (entries_of hash ns) b) g)

    dir-Good :
        (name path : Text) (h h' : Hash) (want : (Hash → Option Object) → Type 0)
        (paths : List Text) (b : Building src S m)
        → Good b h' want paths (sub h (path ++ codes "/") b)
        → Good b (entry name dir h') want paths (rewrite_dir src S m sub (entry name dir h) path b)
    unfolding rewrite_dir
    dir-Good name path h h' want paths b g =
        Ends-map b h' (entry name dir h') want paths (entry name dir) refl
          (sub h (path ++ codes "/") b) g

  other-Good :
      (sub : Hash → Text → Build src S m Hash) (name path : Text) (mode : Mode) (h : Hash)
      (b : Building src S m)
      → IsOther mode
      → Good b
          (entry name mode h)
          (λ get. Unit {0})
          []
          (by_mode src S m sub mode (entry name mode h) path b)
  unfolding by_mode
  other-Good sub name path Mode.empty h b i =
      (λ k p q. q, (refl, (tt, sym (append-nil b.replaced))))
  other-Good sub name path Mode.deprecated h b i =
      (λ k p q. q, (refl, (tt, sym (append-nil b.replaced))))
  other-Good sub name path Mode.submodule h b i =
      (λ k p q. q, (refl, (tt, sym (append-nil b.replaced))))
  other-Good sub name path dir h b i = absurd i
  other-Good sub name path regular h b i = absurd i
  other-Good sub name path executable h b i = absurd i
  other-Good sub name path symlink h b i = absurd i

  mutual
    unfolding by_mode rewrite_dir rewrite_tree rewrite_level rewrite_entries mirrored reported
        hash_node depth

    node-Good :
        (n : Node) (fuel : ℕ) (name path : Text) (b : Building src S m)
        → depth n ≤ fuel
        → Readable hash src n
        → Good b
            (entry name (mode_of (mirrored m n)) (hash_node hash (mirrored m n)))
            (λ get. Stored hash get (mirrored m n))
            (reported m path n)
            (by_mode src S m
              (rewrite_tree src S m fuel)
              (mode_of n)
              (entry name (mode_of n) (hash_node hash n))
              path
              b)
    node-Good (folder ns) zero name path b d r = absurd (omega arith)
    node-Good (folder ns) (suc fuel) name path b d (read, r) =
        dir-Good (rewrite_tree src S m (suc fuel)) name path (hash (tree (entries_of hash ns)))
          (hash (tree (entries_of hash (all_mirrored m ns))))
          (λ get. Stored hash get (folder (all_mirrored m ns)))
          (all_reported m (path ++ codes "/") ns) b
          (level-Good (rewrite_tree src S m fuel) ns (all_mirrored m ns) (path ++ codes "/")
            (all_reported m (path ++ codes "/") ns) b read
            (nodes-Good ns fuel (path ++ codes "/") b (omega arith) r))
    node-Good (file true contents) fuel name path b d r =
        rewrite_file-Good name executable path contents b r
    node-Good (file false contents) fuel name path b d r =
        rewrite_file-Good name regular path contents b r
    node-Good (link target) fuel name path b d r = copy_blob_object-Good name symlink target b r
    node-Good (other mode h) fuel name path b d r =
        other-Good (rewrite_tree src S m fuel) name path mode h b r

    nodes-Good :
        (ns : Nodes) (fuel : ℕ) (prefix : Text) (b : Building src S m)
        → depth_all ns ≤ fuel
        → AllReadable hash src ns
        → Good b
            (entries_of hash (all_mirrored m ns))
            (λ get. AllStored hash get (all_mirrored m ns))
            (all_reported m prefix ns)
            (rewrite_entries src S m (rewrite_tree src S m fuel) prefix (entries_of hash ns) b)
    nodes-Good nil fuel prefix b d r = (λ k p q. q, (refl, (tt, sym (append-nil b.replaced))))
    nodes-Good (cons name n ns) fuel prefix b d (r, rs) =
        and_then-Good (rewrite_tree src S m fuel) name (mirrored m n) (all_mirrored m ns)
          (reported m (prefix ++ name) n) (all_reported m prefix ns) b _ _
          (node-Good n fuel name (prefix ++ name) b (omega arith) r)
          (λ b'. nodes-Good ns fuel prefix b' (omega arith) rs)

  -- Publishing a tree refines `mirrored`: where the canonical repository has every object of the tree
  -- and the fuel is the depth of the tree or more, the root that is returned is the root of the
  -- mirrored tree, every object of that tree is in the store, the files that are reported are those that
  -- are not kept, in their order, and no object that was there is lost; or the store refused an object,
  -- and that error is returned.
  pub rewrite_tree-mirrored :
      (ns : Nodes) (fuel : ℕ) (b : Building src S m)
      → suc (depth_all ns) ≤ fuel
      → Readable hash src (folder ns)
      → Good b
          (hash_node hash (mirrored m (folder ns)))
          (λ get. Stored hash get (mirrored m (folder ns)))
          (all_reported m [] ns)
          (rewrite_tree src S m fuel (hash_node hash (folder ns)) [] b)
  unfolding rewrite_tree hash_node mirrored
  rewrite_tree-mirrored ns zero b d r = absurd (omega arith)
  rewrite_tree-mirrored ns (suc fuel) b d (read, r) =
      level-Good (rewrite_tree src S m fuel) ns (all_mirrored m ns) [] (all_reported m [] ns) b read
        (nodes-Good ns fuel [] b (omega arith) r)
