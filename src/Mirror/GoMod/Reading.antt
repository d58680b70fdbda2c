-- ===== src/Mirror/GoMod/Reading.antt =====
-- What `readModulePath` finds in a file.
use git_sync_core.Prelude.{
  ℕ, ◌==◌, Bool, true, false, not, ◌&&◌, ◌≡◌, refl, ap, ◌∙◌, Option, none, some, List, [], ◌∷◌,
  ◌++◌, Text, codes, is_empty, has_prefix, all, arith,
}
use git_sync_core.Executor.Environment.{done}
use git_sync_core.Channel.Tags.{is_space, trim_space, trim_space_left, trim_space_right}
use git_sync_core.Mirror.GoMod.{unquote, unquoted, inside, without_last, path_on, module_path_in}

-- A character of a module path: neither a space nor a quotation mark.
abbrev pub is_plain : ℕ → Bool
is_plain c = not (is_space c) && (not (c == b'"') && (not (c == b'`') && not (c == 0x27)))

trim_left_plain : (c : ℕ) (s : Text) → is_space c ≡ false → trim_space_left (c ∷ s) ≡ c ∷ s
unfolding trim_space_left
trim_left_plain c s h = rw h

trim_right_plain : (s : Text) → all is_plain s ≡ true → trim_space_right s ≡ s
unfolding trim_space_right is_empty
trim_right_plain [] h = refl
trim_right_plain (c ∷ s) h = ground (arith, trim_right_plain s)

trim_tight :
    (c : ℕ) (p : Text)
    → is_plain c ≡ true
    → trim_space_right (c ∷ p) ≡ c ∷ p
    → trim_space (c ∷ p) ≡ c ∷ p
unfolding trim_space trim_space_left
trim_tight c p first tight = ground arith

-- Nothing is trimmed where the text begins and ends with plain text.
trim_right_after :
    (s t : Text) → trim_space_right t ≡ t → is_empty t ≡ false → trim_space_right (s ++ t) ≡ s ++ t
unfolding trim_space_right is_empty
trim_right_after [] t h full = h
trim_right_after (c ∷ s) t h full = ground (arith, trim_right_after s t h full, not_empty s t full)
  where
    not_empty : (s t : Text) → is_empty t ≡ false → is_empty (s ++ t) ≡ false
    not_empty [] t full = full
    not_empty (c ∷ s) t full = refl

trim_between :
    (c : ℕ) (s t : Text)
    → is_space c ≡ false
    → trim_space_right t ≡ t
    → is_empty t ≡ false
    → trim_space (c ∷ (s ++ t)) ≡ c ∷ (s ++ t)
unfolding trim_space
trim_between c s t solid h full =
    rw (trim_left_plain c (s ++ t) solid) (trim_right_after (c ∷ s) t h full)

inside-plain : (c : ℕ) (o : Option Text) → is_plain c ≡ true → inside c o ≡ none
inside-plain c none h = refl
inside-plain c (some t) h = ground arith

-- Text that does not begin with a quotation mark is not unquoted.
unquote-plain : (c : ℕ) (p : Text) → is_plain c ≡ true → unquote (c ∷ p) ≡ none
unfolding unquote
unquote-plain c p h = inside-plain c (without_last c p) h

trim_leading : (s : Text) → trim_space (b' ' ∷ s) ≡ trim_space s
unfolding trim_space trim_space_left is_space
trim_leading s = refl

module _ (c : ℕ) (p : Text) (first : is_plain c ≡ true)
    (tight : trim_space_right (c ∷ p) ≡ c ∷ p) where
  abbrev module_line : Text
  module_line = codes "module " ++ (c ∷ p)

  trim-module_line : trim_space module_line ≡ module_line
  unfolding is_empty is_space
  trim-module_line = trim_between b'm' (codes "odule ") (c ∷ p) refl tight refl

  path_on-module_line : path_on module_line ≡ c ∷ p
  unfolding path_on unquoted
  path_on-module_line =
      ap unquoted (trim_leading (c ∷ p) ∙ trim_tight c p first tight)
      ∙ rw (unquoted, unquote-plain c p first)

  module_path_in-module_line :
      (before rest : List Text)
      → all (λ l. not (has_prefix (trim_space l) (codes "module "))) before ≡ true
      → module_path_in (before ++ (module_line ∷ rest)) ≡ done (c ∷ p)
  unfolding module_path_in has_prefix is_empty
  module_path_in-module_line [] rest h = rw (trim-module_line, path_on-module_line)
  module_path_in-module_line (l ∷ before) rest h =
      ground (arith, module_path_in-module_line before rest)

-- The first line that begins with `module ` decides: where a path without spaces and quotation marks
-- stands there, that path is read, whatever the other lines are.
pub first_module_line_read :
    (c : ℕ) (p : Text) (before rest : List Text)
    → all is_plain (c ∷ p) ≡ true
    → all (λ l. not (has_prefix (trim_space l) (codes "module "))) before ≡ true
    → module_path_in (before ++ ((codes "module " ++ (c ∷ p)) ∷ rest)) ≡ done (c ∷ p)
first_module_line_read c p before rest plain h =
    module_path_in-module_line c p (ground arith) (trim_right_plain (c ∷ p) plain) before rest h

-- A comment behind the path, which Go allows and with which it marks a module as deprecated, is read as
-- a part of the path.
pub comment_is_kept :
    (c : ℕ) (p : Text) (d : ℕ) (comment : Text) (before rest : List Text)
    → all is_plain (c ∷ p) ≡ true
    → all is_plain (d ∷ comment) ≡ true
    → all (λ l. not (has_prefix (trim_space l) (codes "module "))) before ≡ true
    → module_path_in
        (before ++ ((codes "module " ++ (c ∷ (p ++ (codes " // " ++ (d ∷ comment))))) ∷ rest))
      ≡ done (c ∷ (p ++ (codes " // " ++ (d ∷ comment))))
unfolding is_empty
comment_is_kept c p d comment before rest plain more h =
    module_path_in-module_line c (p ++ (codes " // " ++ (d ∷ comment))) (ground arith)
      (trim_right_after (c ∷ p) (codes " // " ++ (d ∷ comment))
        (trim_right_after (codes " // ") (d ∷ comment) (trim_right_plain (d ∷ comment) more) refl)
        refl)
      before rest h
