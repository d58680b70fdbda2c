-- ===== src/Channel/Tags/Reading.antt =====
-- The tags of a run are read back as they were written (`splitTags` of service/mirror_service.go).
use mathlib.Core.List.{append-nil}
use git_sync_core.Prelude.{
  ℕ, ◌≡◌, refl, ap, sym, ◌∙◌, ◌==◌, Bool, true, not, ◌&&◌, List, [], ◌∷◌, ◌++◌, Text, is_empty, all,
  All, trim_right, arith,
}
use git_sync_core.Channel.Tags.{
  join_tags, join_more, escape, is_escaped, trim, trim_left, is_space, trim_space, trim_space_left,
  trim_space_right, split_comma, tag_of, tags_of, split_tags,
}

-- A character that needs no care: no comma, no quotation mark, no space and none that JSON escapes.
abbrev pub is_plain : ℕ → Bool
is_plain c = not (c == b',') && (not (c == b'"') && (not (is_space c) && not (is_escaped c)))

-- A tag of such characters, and of at least one.
abbrev pub Plain : Text → Type 0
Plain [] = ⊥
Plain (c ∷ t) = all is_plain (c ∷ t) ≡ true

-- The tags of the column without their escapes.
quoted_more : List Text → Text
quoted_more [] = []
quoted_more (t ∷ ts) = b',' ∷ (b'"' ∷ (t ++ (b'"' ∷ quoted_more ts)))

escape-plain : (t : Text) → all is_plain t ≡ true → escape t ≡ t
unfolding escape
escape-plain [] h = refl
escape-plain (c ∷ t) h = ground (arith, escape-plain t)

join_more-quoted : (ts : List Text) → All Plain ts → join_more ts ≡ quoted_more ts
unfolding join_more quoted_more
join_more-quoted [] h = refl
join_more-quoted ([] ∷ ts) (h, hs) = absurd h
join_more-quoted ((c ∷ t) ∷ ts) (h, hs) =
    rw (join_more, escape-plain (c ∷ t) h, join_more-quoted ts hs) refl

join_tags-quoted :
    (t : Text) (ts : List Text)
    → all is_plain t ≡ true
    → All Plain ts
    → join_tags (t ∷ ts) ≡ b'"' ∷ (t ++ (b'"' ∷ quoted_more ts))
unfolding join_tags
join_tags-quoted t ts h hs = rw (join_tags, escape-plain t h, join_more-quoted ts hs) refl

-- What is left after the quotation mark that ends a tag, up to the last one.
more : List Text → Text
more [] = []
more (u ∷ us) = b'"' ∷ (b',' ∷ (b'"' ∷ (u ++ more us)))

trim_right-plain :
    (t r : Text) → all is_plain t ≡ true → trim_right b'"' (t ++ r) ≡ t ++ trim_right b'"' r
unfolding trim_right
trim_right-plain [] r h = refl
trim_right-plain (c ∷ t) r h = ground (arith, trim_right-plain t r)

trim_right-more :
    (ts : List Text) → All Plain ts → trim_right b'"' (b'"' ∷ quoted_more ts) ≡ more ts
unfolding trim_right quoted_more more is_empty
trim_right-more [] h = refl
trim_right-more ([] ∷ us) (h, _) = absurd h
trim_right-more ((c ∷ u) ∷ us) (h, hs) =
    let tail : trim_right b'"' ((c ∷ u) ++ (b'"' ∷ quoted_more us)) ≡ (c ∷ u) ++ more us =
      trim_right-plain (c ∷ u) (b'"' ∷ quoted_more us) h
      ∙ ap (λ (r : Text). (c ∷ u) ++ r) (trim_right-more us hs) in
    rw tail refl

-- Where the pieces of such a text end: the one that is open, and those after it.
open_end : List Text → Text
open_end [] = []
open_end (u ∷ us) = b'"' ∷ []

pieces : List Text → List Text
pieces [] = []
pieces (u ∷ us) = (b'"' ∷ (u ++ open_end us)) ∷ pieces us

split-plain :
    (t r : Text)
    → all is_plain t ≡ true
    → split_comma (t ++ r) ≡ (t ++ (split_comma r).0, (split_comma r).1)
unfolding split_comma
split-plain [] r h = refl
split-plain (c ∷ t) r h = ground (arith, split-plain t r)

Plain-all : (t : Text) → Plain t → all is_plain t ≡ true
Plain-all [] h = absurd h
Plain-all (c ∷ t) h = h

split-more : (ts : List Text) → All Plain ts → split_comma (more ts) ≡ (open_end ts, pieces ts)
unfolding split_comma more open_end pieces
split-more [] h = refl
split-more (u ∷ us) (h, hs) = rw (split-plain u (more us) (Plain-all u h), split-more us hs) refl

abbrev spaceless : Text → Bool
spaceless t = all (λ c. not (is_space c)) t

trim_right-spaceless : (t : Text) → spaceless t ≡ true → trim_space_right t ≡ t
unfolding trim_space_right is_empty
trim_right-spaceless [] h = refl
trim_right-spaceless (c ∷ t) h = ground (arith, trim_right-spaceless t)

trim-spaceless : (t : Text) → spaceless t ≡ true → trim_space t ≡ t
unfolding trim_space trim_space_left
trim-spaceless [] h = trim_right-spaceless [] h
trim-spaceless (c ∷ t) h = ground (arith, trim_right-spaceless (c ∷ t) h)

plain-spaceless :
    (t : Text) (ts : List Text) → all is_plain t ≡ true → spaceless (t ++ open_end ts) ≡ true
unfolding is_space open_end
plain-spaceless [] [] h = refl
plain-spaceless [] (u ∷ us) h = refl
plain-spaceless (c ∷ t) ts h = ground (arith, plain-spaceless t ts)

trim_right-open_end : (ts : List Text) → trim_right b'"' (open_end ts) ≡ []
unfolding trim_right open_end is_empty
trim_right-open_end [] = refl
trim_right-open_end (u ∷ us) = refl

trimmed : (t : Text) (ts : List Text) → Plain t → trim b'"' (t ++ open_end ts) ≡ t
unfolding trim trim_left
trimmed [] ts h = absurd h
trimmed (c ∷ t) ts h =
    let kept : trim_right b'"' ((c ∷ t) ++ open_end ts) ≡ c ∷ t =
      trim_right-plain (c ∷ t) (open_end ts) h
      ∙ (ap (λ (r : Text). (c ∷ t) ++ r) (trim_right-open_end ts) ∙ append-nil (c ∷ t)) in
    ground (arith, kept)

tag_of-first : (t : Text) (ts : List Text) → Plain t → tag_of (t ++ open_end ts) ≡ t
unfolding tag_of
tag_of-first t ts h =
    ap (trim b'"') (trim-spaceless (t ++ open_end ts) (plain-spaceless t ts (Plain-all t h)))
    ∙ trimmed t ts h

tag_of-next : (t : Text) (ts : List Text) → Plain t → tag_of (b'"' ∷ (t ++ open_end ts)) ≡ t
unfolding tag_of trim trim_left
tag_of-next t ts h =
    let spaces : spaceless (b'"' ∷ (t ++ open_end ts)) ≡ true =
      unfold is_space in plain-spaceless t ts (Plain-all t h) in
    ap (trim b'"') (trim-spaceless (b'"' ∷ (t ++ open_end ts)) spaces) ∙ trimmed t ts h

tags_of-pieces : (ts : List Text) → All Plain ts → tags_of (pieces ts) ≡ ts
unfolding tags_of pieces is_empty
tags_of-pieces [] h = refl
tags_of-pieces ([] ∷ us) (h, hs) = absurd h
tags_of-pieces ((c ∷ u) ∷ us) (h, hs) =
    ground (arith, tag_of-next (c ∷ u) us h, tags_of-pieces us hs)

-- The tags of a run are read back exactly as they were given, if each has at least one character and
-- none has a comma, a quotation mark, a space or a character that JSON escapes (a control character,
-- a backslash, `<`, `>`, `&`).
pub split_tags-join_tags :
    (t : Text) (ts : List Text) → Plain t → All Plain ts → split_tags (join_tags (t ∷ ts)) ≡ t ∷ ts
unfolding split_tags trim trim_left tags_of is_empty
split_tags-join_tags [] ts h hs = absurd h
split_tags-join_tags (c ∷ t) ts h hs =
    let quoted : Text = b'"' ∷ ((c ∷ t) ++ (b'"' ∷ quoted_more ts)) in
    let read : trim b'"' quoted ≡ (c ∷ t) ++ more ts =
      ground (arith, trim_right-plain (c ∷ t) (b'"' ∷ quoted_more ts) h, trim_right-more ts hs) in
    rw
      (
        join_tags-quoted (c ∷ t) ts h hs,
        read,
        split-plain (c ∷ t) (more ts) h,
        split-more ts hs,
        tag_of-first (c ∷ t) ts h,
        tags_of-pieces ts hs,
      )
      refl

split-alone : (t : Text) → all is_plain t ≡ true → split_comma t ≡ (t, [])
unfolding split_comma
split-alone [] h = refl
split-alone (c ∷ t) h = ground (arith, split-alone t)

tag_of-alone : (t : Text) → Plain t → tag_of t ≡ t
unfolding open_end
tag_of-alone t h = ap tag_of (sym (append-nil t)) ∙ tag_of-first t [] h
