-- ===== src/Prelude/Texts.antt =====
-- Go's strings. Keys and states, of which the program only asks whether they are equal, are native
-- texts; what it searches, joins or cuts is a list of code points, with the functions of Go's
-- package `strings` that the program calls.
use Prim.Native.Nat.{ℕ, zero, suc, ◌+◌, ◌/◌, ◌%◌}
use Prim.Native.Char.{code}
use Prim.Native.String.{String}
use mathlib.Core.Bool.{Bool, true, false, ◌&&◌, ◌||◌}
use mathlib.Core.List.{List, [], ◌∷◌, ◌++◌}
use text.Mathlib.Text.{◌==◌ as str_eq}
use git_sync_core.Prelude.Tests.{◌==◌, leb, ltb, if◌then◌else◌}

abbrev pub Text : Type 0
Text = List ℕ

abbrev pub codes : String → Text
codes String.[] = []
codes (String.◌∷◌ c s) = code c ∷ codes s

-- Go's `==` on strings.
infix 50 ◌=ˢ◌
abbrev pub ◌=ˢ◌ : String → String → Bool
s =ˢ t = str_eq s t

unfoldable pub is_empty : Text → Bool
is_empty [] = true
is_empty (c ∷ s) = false

unfoldable pub same : Text → Text → Bool
same [] [] = true
same [] (d ∷ t) = false
same (c ∷ s) [] = false
same (c ∷ s) (d ∷ t) = (c == d) && same s t

-- `strings.HasPrefix(s, p)`
unfoldable pub has_prefix : Text → Text → Bool
has_prefix s [] = true
has_prefix [] (d ∷ p) = false
has_prefix (c ∷ s) (d ∷ p) = (c == d) && has_prefix s p

-- `strings.Contains(s, t)`
unfoldable pub contains : Text → Text → Bool
unfolding has_prefix
contains [] t = has_prefix [] t
contains (c ∷ s) t = has_prefix (c ∷ s) t || contains s t

-- `strings.HasSuffix(s, t)`
unfoldable pub has_suffix : Text → Text → Bool
unfolding same
has_suffix [] t = same [] t
has_suffix (c ∷ s) t = same (c ∷ s) t || has_suffix s t

abbrev pub is_upper : ℕ → Bool
is_upper c = leb b'A' c && leb c b'Z'

abbrev pub is_lower : ℕ → Bool
is_lower c = leb b'a' c && leb c b'z'

abbrev pub is_digit : ℕ → Bool
is_digit c = leb b'0' c && leb c b'9'

abbrev pub is_alnum : ℕ → Bool
is_alnum c = is_lower c || is_upper c || is_digit c

-- One rune of `strings.ToLower`, as far as the result is ASCII: beside the letters A to Z two runes
-- lower to ASCII, U+0130 and the Kelvin sign. Other runes never lower to ASCII and are left alone.
unfoldable pub to_lower : ℕ → ℕ
to_lower c =
    if is_upper c then c + 32 else if c == 0x212a then b'k' else if c == 0x130 then b'i' else c

-- `strings.TrimRight(s, c)` for one character `c`
unfoldable pub trim_right : ℕ → Text → Text
unfolding is_empty
trim_right c [] = []
trim_right c (d ∷ s) =
    let rest = trim_right c s in if (d == c) && is_empty rest then [] else d ∷ rest

unfoldable decimal_in : ℕ → ℕ → Text
decimal_in zero n = []
decimal_in (suc f) n =
    let front = decimal_in f (n / 10) in
    if ltb n 10 then (b'0' + n) ∷ [] else front ++ ((b'0' + n % 10) ∷ [])

-- `%d`: a number has at most as many digits as it counts, and one more.
unfoldable pub decimal : ℕ → Text
unfolding decimal_in
decimal n = decimal_in (n + 1) n
