-- ===== src/Mirror/GoMod.antt =====
-- `readModulePath` of mirror/mirror.go, with `Split`, `TrimSpace` and `Unquote` of Go's library as far as
-- it uses them. A file is read as code points; an escape of a byte above 0x7f gives its number.
pub mod Reading
use git_sync_core.Prelude.{
  ℕ, zero, suc, ◌+◌, ◌-◌, ◌*◌, ◌==◌, ltb, leb, Bool, true, false, not, ◌&&◌, ◌||◌, Option, none,
  some, List, [], ◌∷◌, ◌++◌, Text, codes, is_empty, has_prefix, is_digit, any, drop, if◌then◌else◌,
}
use git_sync_core.Executor.Errors.{GoError, new_error, wrap}
use git_sync_core.Executor.Environment.{Outcome, done, error}
use git_sync_core.Channel.Tags.{trim_space}

unfoldable pub digit_value : ℕ → Option ℕ
digit_value c =
    if is_digit c
    then some (c - b'0')
    else if leb b'a' c && leb c b'f'
    then some (c - b'a' + 10)
    else if leb b'A' c && leb c b'F'
    then some (c - b'A' + 10)
    else none

-- The number that the first `n` characters write in a base.
unfoldable pub number_in : (base n acc : ℕ) → Text → Option ℕ
unfolding digit_value
number_in base zero acc t = some acc
number_in base (suc n) acc [] = none
number_in base (suc n) acc (c ∷ t) = elim (digit_value c) [
  | none ↦ none
  | some v ↦ if ltb v base then number_in base n (acc * base + v) t else none
]

abbrev pub checked : (ℕ → Bool) → (taken : ℕ) → Option ℕ → Option (ℕ × ℕ)
checked ok taken none = none
checked ok taken (some v) = if ok v then some (v, taken) else none

abbrev pub is_rune : ℕ → Bool
is_rune v = ltb v 0xd800 || (leb 0xe000 v && leb v 0x10ffff)

-- The character of an escape, and how many characters it takes behind the backslash.
unfoldable pub escape_of : (quote : ℕ) → Text → Option (ℕ × ℕ)
unfolding number_in
escape_of quote [] = none
escape_of quote (c ∷ t) =
    if c == b'a'
    then some (7, 1)
    else if c == b'b'
    then some (8, 1)
    else if c == b'f'
    then some (12, 1)
    else if c == b'n'
    then some (10, 1)
    else if c == b'r'
    then some (13, 1)
    else if c == b't'
    then some (9, 1)
    else if c == b'v'
    then some (11, 1)
    else if c == b'\\'
    then some (b'\\', 1)
    else if c == quote
    then some (quote, 1)
    else if c == b'x'
    then checked (λ v. true) 3 (number_in 16 2 0 t)
    else if c == b'u'
    then checked is_rune 5 (number_in 16 4 0 t)
    else if c == b'U'
    then checked is_rune 9 (number_in 16 8 0 t)
    else checked (λ v. leb v 255) 3 (number_in 8 3 0 (c ∷ t))

abbrev pub with_first : ℕ → Option Text → Option Text
with_first c none = none
with_first c (some t) = some (c ∷ t)

-- The text between quotes, of which an escape has already taken the first `skip` characters.
unfoldable pub unescape : (quote skip : ℕ) → Text → Option Text
unfolding escape_of
unescape quote zero [] = some []
unescape quote (suc k) [] = none
unescape quote (suc k) (c ∷ t) = unescape quote k t
unescape quote zero (c ∷ t) =
    let plain = with_first c (unescape quote zero t) in
    let escaped = escape_of quote t in
    let special : Option Text = elim escaped [
      | none ↦ none
      | some (v, taken) ↦ with_first v (unescape quote taken t)
    ] in
    if c == b'\\' then special else if (c == quote) || (c == 0x0a) then none else plain

-- A text without its last character, which must be `quote`.
unfoldable pub without_last : (quote : ℕ) → Text → Option Text
without_last quote [] = none
without_last quote (c ∷ []) = if c == quote then some [] else none
without_last quote (c ∷ (d ∷ t)) = with_first c (without_last quote (d ∷ t))

unfoldable pub drop_returns : Text → Text
drop_returns [] = []
drop_returns (c ∷ t) = let rest = drop_returns t in if c == 0x0d then rest else c ∷ rest

abbrev pub one_char : Option Text → Option Text
one_char (some (c ∷ [])) = some (c ∷ [])
one_char other = none

abbrev pub inside : (quote : ℕ) → Option Text → Option Text
inside quote none = none
inside quote (some t) =
    if quote == b'`'
    then (if any (λ c. c == b'`') t then none else some (drop_returns t))
    else if quote == b'"'
    then unescape quote zero t
    else if quote == 0x27
    then one_char (unescape quote zero t)
    else none

-- `strconv.Unquote`
unfoldable pub unquote : Text → Option Text
unfolding without_last unescape drop_returns
unquote [] = none
unquote (c ∷ t) = inside c (without_last c t)

-- `strings.Split(s, "\n")`: the first line and the others.
unfoldable pub split_lines : Text → Text × List Text
split_lines [] = ([], [])
split_lines (c ∷ s) =
    let (line, others) = split_lines s in
    if c == 0x0a then ([], line ∷ others) else (c ∷ line, others)

unfoldable pub unquoted : Text → Text
unquoted p = elim (unquote p) [ some inner ↦ inner | none ↦ p ]

-- The path on a line that begins with `module `.
unfoldable pub path_on : (line : Text) → Text
unfolding unquoted
path_on line = unquoted (trim_space (drop 6 line))

unfoldable pub no_module_line : Outcome Text
no_module_line = error (new_error (codes "go.mod 中未找到 module 行"))

-- The loop over the lines.
unfoldable pub module_path_in : List Text → Outcome Text
unfolding no_module_line
module_path_in [] = no_module_line
module_path_in (l ∷ ls) =
    let rest = module_path_in ls in
    let line = trim_space l in
    let p = path_on line in
    if has_prefix line (codes "module ")
    then (if is_empty p then no_module_line else done p)
    else rest

-- `readModulePath`, from what reading the file gives.
unfoldable pub read_module_path : Outcome Text → Outcome Text
read_module_path (error e) = error (wrap (codes "读取 go.mod 失败") e)
read_module_path (done contents) =
    let (line, others) = split_lines contents in module_path_in (line ∷ others)
