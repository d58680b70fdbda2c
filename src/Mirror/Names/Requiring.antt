-- ===== src/Mirror/Names/Requiring.antt =====
-- How the go command reads the lines of a `go.mod`, and that accepted names are read back from the one
-- that is built of them.
use git_sync_core.Prelude.{
  ℕ, ◌==◌, Bool, true, false, not, ◌&&◌, ◌||◌, ◌≡◌, refl, none, List, [], ◌∷◌, ◌++◌, Text, ap,
  codes, is_empty, all, arith, if◌then◌else◌,
}
use git_sync_core.Mirror.Names.{
  is_name_char, validate_name, is_version_char, validate_version, go_mod,
}
use git_sync_core.Mirror.Names.Reading.{
  cut, cut-append, cut-at, cut-free, name_chars-free, version_chars-free, accepted_chars,
  accepted_version_chars,
}

unfoldable pub words : List Text → List Text
words [] = []
words (w ∷ ws) = let rest = words ws in if is_empty w then rest else w ∷ rest

-- The words of each line.
unfoldable pub lines_of : List Text → List (List Text)
unfolding cut words
lines_of [] = []
lines_of (l ∷ ls) =
    let rest = lines_of ls in
    if is_empty l then rest else (let (w, ws) = cut (λ d. d == b' ') l in words (w ∷ ws)) ∷ rest

abbrev starts_slash : Text → Bool
starts_slash [] = false
starts_slash (c ∷ s) = c == b'/'

-- Whether two slashes stand next to each other.
unfoldable pub has_slashes : Text → Bool
has_slashes [] = false
has_slashes (c ∷ s) = ((c == b'/') && starts_slash s) || has_slashes s

-- A line without its comment, which the first two slashes begin, even inside a word.
unfoldable pub strip_comment : Text → Text
strip_comment [] = []
strip_comment (c ∷ s) =
    let rest = strip_comment s in if (c == b'/') && starts_slash s then [] else c ∷ rest

unfoldable pub strip_comments : List Text → List Text
strip_comments [] = []
strip_comments (l ∷ ls) = strip_comment l ∷ strip_comments ls

-- The lines of a `go.mod` that are not empty without their comments, as words.
unfoldable pub read_go_mod : Text → List (List Text)
unfolding cut lines_of
read_go_mod s = let (l, ls) = cut (λ d. d == 0x0a) s in lines_of (strip_comments (l ∷ ls))

strip_comment-free : (s : Text) → has_slashes s ≡ false → strip_comment s ≡ s
unfolding has_slashes strip_comment
strip_comment-free [] h = refl
strip_comment-free (c ∷ s) h = ground (arith, strip_comment-free s)

slashless : (s : Text) → all (λ c. not (c == b'/')) s ≡ true → has_slashes s ≡ false
unfolding has_slashes
slashless [] h = refl
slashless (c ∷ s) h = ground (arith, slashless s)

slashes-append :
    (s r : Text)
    → has_slashes s ≡ false
    → has_slashes r ≡ false
    → has_slashes (s ++ (b' ' ∷ r)) ≡ false
unfolding has_slashes
slashes-append [] r h k = k
slashes-append (c ∷ []) r h k = ground arith
slashes-append (c ∷ (d ∷ s)) r h k = ground (arith, slashes-append (d ∷ s) r)

newline_outside_version : (c : ℕ) → is_version_char c ≡ true → (c == 0x0a) ≡ false
unfolding is_version_char
newline_outside_version c e = ground arith

slash_outside_version : (c : ℕ) → is_version_char c ≡ true → (c == b'/') ≡ false
unfolding is_version_char
slash_outside_version c e = ground arith

newline_outside : (c : ℕ) → is_name_char c ≡ true → (c == 0x0a) ≡ false
unfolding is_name_char
newline_outside c e = ground arith

space_outside : (c : ℕ) → is_name_char c ≡ true → (c == b' ') ≡ false
unfolding is_name_char
space_outside c e = ground arith

space_outside_version : (c : ℕ) → is_version_char c ≡ true → (c == b' ') ≡ false
unfolding is_version_char
space_outside_version c e = ground arith

module _ (kind mod_path version : Text) (hm : validate_name kind mod_path ≡ none)
    (hv : validate_version version ≡ none) (hs : has_slashes mod_path ≡ false) where
  require_line :
      cut (λ d. d == 0x0a) (mod_path ++ (b' ' ∷ (version ++ (0x0a ∷ []))))
      ≡ (mod_path ++ (b' ' ∷ version), [] ∷ [])
  unfolding cut
  require_line = rw (
    cut-append (λ d. d == 0x0a) mod_path (b' ' ∷ (version ++ (0x0a ∷ [])))
        (name_chars-free kind mod_path mod_path (λ d. d == 0x0a) newline_outside
          (accepted_chars kind mod_path hm).0),
    cut-at (λ d. d == 0x0a) version [] 0x0a
        (version_chars-free version version (λ d. d == 0x0a) newline_outside_version
          (accepted_version_chars version hv).0)
        refl,
  )

  go_mod_lines : cut (λ d. d == 0x0a) (go_mod mod_path version) ≡ (
    codes "module verify",
    []
        ∷ (codes "go 1.21"
            ∷ ([] ∷ ((codes "require " ++ (mod_path ++ (b' ' ∷ version))) ∷ ([] ∷ [])))),
  )
  unfolding cut go_mod
  go_mod_lines =
      ap
        (λ (q : Text × List Text). (
          codes "module verify",
          [] ∷ (codes "go 1.21" ∷ ([] ∷ ((codes "require " ++ q.0) ∷ q.1))),
        ))
        require_line

  required : cut (λ d. d == b' ') (mod_path ++ (b' ' ∷ version)) ≡ (mod_path, version ∷ [])
  required = rw (
    cut-at (λ d. d == b' ') mod_path version b' '
        (name_chars-free kind mod_path mod_path (λ d. d == b' ') space_outside
          (accepted_chars kind mod_path hm).0)
        refl,
    cut-free (λ d. d == b' ') version
        (version_chars-free version version (λ d. d == b' ') space_outside_version
          (accepted_version_chars version hv).0),
  )

  require_kept :
      strip_comment (codes "require " ++ (mod_path ++ (b' ' ∷ version)))
      ≡ codes "require " ++ (mod_path ++ (b' ' ∷ version))
  unfolding has_slashes
  require_kept = strip_comment-free (codes "require " ++ (mod_path ++ (b' ' ∷ version))) (
      slashes-append mod_path version hs (
        slashless version (
          version_chars-free version version (λ d. d == b'/') slash_outside_version
            (accepted_version_chars version hv).0)))

  lines_kept :
      strip_comments (
        codes "module verify"
        ∷ ([]
            ∷ (codes "go 1.21"
                ∷ ([] ∷ ((codes "require " ++ (mod_path ++ (b' ' ∷ version))) ∷ ([] ∷ []))))))
      ≡ codes "module verify"
        ∷ ([]
            ∷ (codes "go 1.21"
                ∷ ([] ∷ ((codes "require " ++ (mod_path ++ (b' ' ∷ version))) ∷ ([] ∷ [])))))
  unfolding strip_comments strip_comment
  lines_kept =
      ap (λ (l : Text). codes "module verify" ∷ ([] ∷ (codes "go 1.21" ∷ ([] ∷ (l ∷ ([] ∷ []))))))
        require_kept

  -- Accepted names without two slashes next to each other cannot add a line to the `go.mod` of a
  -- verification, nor a word or a comment: its lines are one module, one language version and one
  -- requirement, of that module in that version.
  pub go_mod_requires_one :
      read_go_mod (go_mod mod_path version)
      ≡ (codes "module" ∷ (codes "verify" ∷ []))
        ∷ ((codes "go" ∷ (codes "1.21" ∷ []))
            ∷ ((codes "require" ∷ (mod_path ∷ (version ∷ []))) ∷ []))
  unfolding read_go_mod is_empty
  go_mod_requires_one = rw go_mod_lines (
      rw lines_kept (
        rw (
          required,
          words,
          (accepted_chars kind mod_path hm).1,
          (accepted_version_chars version hv).1,
        )))
