-- ===== src/Prelude/Utf.antt =====
-- The bytes of a text, as Go keeps it.
use git_sync_core.Prelude.{ℕ, ◌+◌, ◌/◌, ◌%◌, List, [], ◌∷◌, ◌++◌, ltb, if◌then◌else◌, Text}

unfoldable pub utf8_char : ℕ → List ℕ
utf8_char c =
    if ltb c 0x80
    then c ∷ []
    else if ltb c 0x800
    then (0xc0 + c / 64) ∷ ((0x80 + c % 64) ∷ [])
    else if ltb c 0x10000
    then (0xe0 + c / 4096) ∷ ((0x80 + c / 64 % 64) ∷ ((0x80 + c % 64) ∷ []))
    else (0xf0 + c / 262144)
      ∷ ((0x80 + c / 4096 % 64) ∷ ((0x80 + c / 64 % 64) ∷ ((0x80 + c % 64) ∷ [])))

unfoldable pub utf8 : Text → List ℕ
utf8 [] = []
utf8 (c ∷ s) = utf8_char c ++ utf8 s
