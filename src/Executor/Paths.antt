-- ===== src/Executor/Paths.antt =====
-- `filepath.Join` of two elements and `filepath.Clean`, as they are on Unix.
use git_sync_core.Prelude.{
  ◌==◌, Bool, true, false, List, [], ◌∷◌, ◌++◌, Text, codes, is_empty, same, if◌then◌else◌,
}

-- The elements of a path between its slashes.
unfoldable pub split_slash : Text → Text × List Text
split_slash [] = ([], [])
split_slash (c ∷ s) =
    let (first, others) = split_slash s in
    if c == b'/' then ([], first ∷ others) else (c ∷ first, others)

-- One step up from the elements so far, the last of them first.
unfoldable pub step_up : (rooted : Bool) → List Text → List Text
step_up true [] = []
step_up false [] = codes ".." ∷ []
step_up rooted (e ∷ es) = if same e (codes "..") then codes ".." ∷ (e ∷ es) else es

unfoldable pub clean_elements : (rooted : Bool) → (so_far elements : List Text) → List Text
clean_elements rooted so_far [] = so_far
clean_elements rooted so_far (e ∷ es) =
    let skipped = clean_elements rooted so_far es in
    let up = clean_elements rooted (step_up rooted so_far) es in
    let kept = clean_elements rooted (e ∷ so_far) es in
    if is_empty e
    then skipped
    else if same e (codes ".")
    then skipped
    else if same e (codes "..")
    then up
    else kept

-- The elements, the last of them first, with a slash before each.
unfoldable pub slashed : List Text → Text
slashed [] = []
slashed (e ∷ es) = slashed es ++ (b'/' ∷ e)

unfoldable pub without_first : Text → Text
without_first [] = codes "."
without_first (c ∷ s) = s

-- `filepath.Clean`
unfoldable pub clean : Text → Text
clean [] = codes "."
clean (c ∷ s) =
    let (first, others) = split_slash (c ∷ s) in
    let cleaned = slashed (clean_elements (c == b'/') [] (first ∷ others)) in
    if c == b'/' then (if is_empty cleaned then b'/' ∷ [] else cleaned) else without_first cleaned

-- `filepath.Join`, which leaves out an empty element
unfoldable pub join_path : (a b : Text) → Text
join_path [] [] = []
join_path [] (c ∷ b) = clean (c ∷ b)
join_path (c ∷ a) b = clean ((c ∷ a) ++ (if is_empty b then [] else b'/' ∷ b))
