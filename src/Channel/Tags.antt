-- ===== src/Channel/Tags.antt =====
-- The column `tags` of a run: the JSON list that `ExecuteMirrorRun` writes without its brackets, and
-- `splitTags`, which reads it (service/mirror_service.go).
pub mod Reading
use git_sync_core.Prelude.{
  ℕ, ◌+◌, ◌-◌, ◌/◌, ◌%◌, ◌==◌, ltb, Bool, true, false, not, ◌&&◌, ◌||◌, List, [], ◌∷◌, ◌++◌, Text,
  codes, is_empty, all, trim_right, if◌then◌else◌,
}

abbrev pub hex_digit : ℕ → ℕ
hex_digit d = if ltb d 10 then b'0' + d else b'a' + (d - 10)

abbrev pub unicode_escape : ℕ → Text
unicode_escape c =
    92
    ∷ (b'u'
        ∷ (hex_digit (c / 4096)
            ∷ (hex_digit (c / 256 % 16) ∷ (hex_digit (c / 16 % 16) ∷ (hex_digit (c % 16) ∷ [])))))

-- The characters that `json.Marshal` escapes: the quotation mark and the backslash, the control
-- characters, `<`, `>`, `&` and the two separators of lines.
unfoldable pub is_escaped : ℕ → Bool
is_escaped c =
    ltb c 32
    || ((c == b'"')
        || ((c == 92)
            || ((c == b'<') || ((c == b'>') || ((c == b'&') || ((c == 8232) || (c == 8233)))))))

-- The short escapes: `\"`, `\\`, `\b`, `\f`, `\n`, `\r` and `\t`.
abbrev pub short_escapes : List (ℕ × ℕ)
short_escapes =
    (b'"', b'"')
    ∷ ((92, 92) ∷ ((8, b'b') ∷ ((12, b'f') ∷ ((10, b'n') ∷ ((13, b'r') ∷ ((9, b't') ∷ []))))))

unfoldable pub escape_by : List (ℕ × ℕ) → ℕ → Text
escape_by [] c = unicode_escape c
escape_by ((d, letter) ∷ es) c = if c == d then 92 ∷ (letter ∷ []) else escape_by es c

unfoldable pub escape : Text → Text
escape [] = []
escape (c ∷ t) =
    let rest = escape t in if is_escaped c then escape_by short_escapes c ++ rest else c ∷ rest

-- `json.Marshal(tags)` without the brackets, for tags in UTF-8.
unfoldable pub join_more : List Text → Text
join_more [] = []
join_more (t ∷ ts) = b',' ∷ (b'"' ∷ (escape t ++ (b'"' ∷ join_more ts)))

unfoldable pub join_tags : List Text → Text
join_tags [] = []
join_tags (t ∷ ts) = b'"' ∷ (escape t ++ (b'"' ∷ join_more ts))

-- `strings.Trim(s, c)` for one character
unfoldable pub trim_left : ℕ → Text → Text
trim_left c [] = []
trim_left c (d ∷ s) = if d == c then trim_left c s else d ∷ s

unfoldable pub trim : ℕ → Text → Text
trim c s = trim_right c (trim_left c s)

-- `unicode.IsSpace`
unfoldable pub is_space : ℕ → Bool
is_space c =
    (not (ltb c 9) && ltb c 14)
    || ((c == b' ')
        || ((c == 133)
            || ((c == 160)
                || ((c == 5760)
                    || ((not (ltb c 8192) && ltb c 8203)
                        || ((c == 8232)
                            || ((c == 8233) || ((c == 8239) || ((c == 8287) || (c == 12288))))))))))

unfoldable pub trim_space_left : Text → Text
trim_space_left [] = []
trim_space_left (d ∷ s) = if is_space d then trim_space_left s else d ∷ s

unfoldable pub trim_space_right : Text → Text
trim_space_right [] = []
trim_space_right (d ∷ s) =
    let rest = trim_space_right s in if is_space d && is_empty rest then [] else d ∷ rest

-- `strings.TrimSpace`
unfoldable pub trim_space : Text → Text
trim_space s = trim_space_right (trim_space_left s)

-- `strings.Split(s, ",")`: the first piece and the others.
unfoldable pub split_comma : Text → Text × List Text
split_comma [] = ([], [])
split_comma (c ∷ s) =
    let (piece, others) = split_comma s in
    if c == b',' then ([], piece ∷ others) else (c ∷ piece, others)

-- The body of the loop for one piece.
unfoldable pub tag_of : Text → Text
tag_of piece = trim b'"' (trim_space piece)

unfoldable pub tags_of : List Text → List Text
tags_of [] = []
tags_of (p ∷ ps) = let rest = tags_of ps in if is_empty (tag_of p) then rest else tag_of p ∷ rest

-- `splitTags`
unfoldable pub split_tags : Text → List Text
split_tags csv = let (piece, others) = split_comma (trim b'"' csv) in tags_of (piece ∷ others)
