-- ===== src/Mirror/Rewrite.antt =====
-- `rewriteModulePath` of mirror/gitobj.go, with the regular expression that it builds. A text here is a
-- list of bytes. A boundary character of several bytes is matched by its first byte: the others
-- follow it unchanged, since no module path begins inside a character.
pub mod Pieces
use git_sync_core.Prelude.{
  ℕ, zero, suc, ◌+◌, ◌-◌, ◌*◌, ◌==◌, ltb, Bool, true, false, not, ◌&&◌, ◌||◌, Option, none, some,
  List, [], ◌∷◌, ◌++◌, Text, codes, is_empty, same, contains, is_alnum, is_digit, length,
  if◌then◌else◌,
}

-- A character that `[^a-zA-Z0-9_.\-]` refuses.
unfoldable pub is_path_char : ℕ → Bool
is_path_char c = is_alnum c || ((c == b'_') || ((c == b'.') || (c == b'-')))

-- What follows `source` at the head of a text that begins with it.
unfoldable pub after : (source s : Text) → Option Text
after [] s = some s
after (d ∷ source) [] = none
after (d ∷ source) (c ∷ s) = let rest = after source s in if c == d then rest else none

-- The group of the boundary, where the expression matches at the head of a text.
unfoldable pub boundary_of : Option Text → Option Text
boundary_of none = none
boundary_of (some []) = some []
boundary_of (some (c ∷ s)) = if is_path_char c then none else some (c ∷ [])

unfoldable pub match_here : (source s : Text) → Option Text
unfolding after boundary_of
match_here source s = boundary_of (after source s)

-- The characters of a name in a template, as far as they are ASCII.
unfoldable pub is_group_char : ℕ → Bool
is_group_char c = is_alnum c || (c == b'_')

unfoldable pub group_name : Text → Text
group_name [] = []
group_name (c ∷ t) = let rest = group_name t in if is_group_char c then c ∷ rest else []

-- Whether a closing brace follows a name.
unfoldable pub closes : (name t : Text) → Bool
closes name t = elim (after name t) [ some (c ∷ rest) ↦ c == b'}' | _ ↦ false ]

-- The value of a reference: groups 0 to 2 exist, and no group has a name.
unfoldable pub group_value : (source boundary name : Text) → Text
group_value source boundary name =
    if same name (codes "0")
    then source ++ boundary
    else if same name (codes "1")
    then source
    else if same name (codes "2")
    then boundary
    else []

-- What `Expand` writes after a dollar sign, and how many characters behind the sign it takes.
unfoldable pub reference : (source boundary : Text) → Text → Text × ℕ
reference source boundary [] = (b'$' ∷ [], 0)
reference source boundary (c ∷ t) =
    if c == b'$'
    then (b'$' ∷ [], 1)
    else if c == b'{'
    then (let name = group_name t in
        if is_empty name || not (closes name t)
        then (b'$' ∷ [], 0)
        else (group_value source boundary name, length name + 2))
    else (let name = group_name (c ∷ t) in
        if is_empty name then (b'$' ∷ [], 0) else (group_value source boundary name, length name))

-- `Expand` on a template, of which it has already taken the first `skip` characters.
unfoldable pub expand : (source boundary : Text) → (skip : ℕ) → Text → Text
expand source boundary skip [] = []
expand source boundary (suc k) (c ∷ t) = expand source boundary k t
expand source boundary zero (c ∷ t) =
    let plain = expand source boundary zero t in
    let (value, taken) = reference source boundary t in
    let referred = value ++ expand source boundary taken t in
    if c == b'$' then referred else c ∷ plain

-- `ReplaceAll` on the rest of a text, of which a match has already taken the first `skip` bytes.
unfoldable pub replace_all : (source template : Text) → (skip : ℕ) → Text → Text
replace_all source template skip [] = []
replace_all source template (suc k) (c ∷ s) = replace_all source template k s
replace_all source template zero (c ∷ s) = elim (match_here source (c ∷ s)) [
  | none ↦ c ∷ replace_all source template zero s
  | some b ↦
      expand source b zero template ++ replace_all source template (length source + length b - 1) s
]

-- `rewriteModulePath`
unfoldable pub rewrite_module_path : (contents source target : Text) → Text
rewrite_module_path contents source target =
    if is_empty source || (is_empty target || not (contains contents source))
    then contents
    else replace_all source (target ++ codes "$2") zero contents
