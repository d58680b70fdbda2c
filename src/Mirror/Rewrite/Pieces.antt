-- ===== src/Mirror/Rewrite/Pieces.antt =====
-- What `rewriteModulePath` does, told without its matching: the text is a list of pieces with the
-- source path between them, and the result is the same pieces with the target path between them.
use git_sync_core.Prelude.{
  ℕ, zero, suc, ◌+◌, ◌-◌, Bool, true, false, not, ◌≡◌, refl, ◌&&◌, ◌||◌, ◌⊎◌, inl, inr, Option,
  none, some, List, [], ◌∷◌, ◌++◌, Text, codes, same, is_empty, sym, ap, ◌∙◌, contains, subst,
  has_prefix, length, drop, arith, Option-cases, Bool-cases,
}
use mathlib.Core.List.{append-nil, append_assoc}
use git_sync_core.Prelude.TextLaws.{Lacks}
use git_sync_core.Mirror.Rewrite.{
  is_path_char, is_group_char, group_name, group_value, after, match_here, reference, expand,
  replace_all, rewrite_module_path,
}

-- A first piece and others, with `between` before each of the others.
unfoldable pub joined : (between first : Text) → List Text → Text
joined between p [] = p
joined between p (q ∷ qs) = p ++ (between ++ joined between q qs)

-- A character that cannot go on a module path stands first.
abbrev pub begins_apart : Text → Bool
begins_apart [] = false
begins_apart (c ∷ s) = not (is_path_char c)

-- Each piece but the last begins with such a character; the last may also be empty.
abbrev pub apart : List Text → Bool
apart [] = true
apart (q ∷ []) = is_empty q || begins_apart q
apart (q ∷ (r ∷ qs)) = begins_apart q && apart (r ∷ qs)

-- No path goes on behind what is left of a piece; the end of the last piece is the end of the text.
abbrev pub ends_path : (last : Bool) → Text → Bool
ends_path last [] = last
ends_path last (c ∷ s) = not (is_path_char c)

abbrev pub standing : (last : Bool) → Option Text → Bool
standing last none = false
standing last (some rest) = ends_path last rest

-- The source occurs in a piece as a whole path or as the beginning of one.
unfoldable pub stands_in : (last : Bool) → (source piece : Text) → Bool
unfolding after
stands_in last source [] = false
stands_in last source (c ∷ s) = standing last (after source (c ∷ s)) || stands_in last source s

unfoldable pub left_standing : (source first : Text) → List Text → Bool
unfolding stands_in
left_standing source p [] = stands_in true source p
left_standing source p (q ∷ qs) = stands_in false source p || left_standing source q qs

-- A template that ends in the reference to the boundary.
expand-boundary :
    (source b target : Text)
    → Lacks b'$' target
    → expand source b zero (target ++ codes "$2") ≡ target ++ b
unfolding expand reference group_name group_value is_group_char same is_empty
expand-boundary source b [] h = append-nil b
expand-boundary source b (c ∷ target) h = ground (arith, expand-boundary source b target)

-- The pieces that the matching finds.
pieces : (source : Text) → (skip : ℕ) → Text → Text × List Text
pieces source skip [] = ([], [])
pieces source (suc k) (c ∷ s) = pieces source k s
pieces source zero (c ∷ s) = elim (match_here source (c ∷ s)) [
  | none ↦ (let (p, qs) = pieces source zero s in (c ∷ p, qs))
  | some b ↦ (let (p, qs) = pieces source (length source + length b - 1) s in ([], (b ++ p) ∷ qs))
]

joined-append :
    (between b p : Text) (qs : List Text) → joined between (b ++ p) qs ≡ b ++ joined between p qs
unfolding joined
joined-append between b p [] = refl
joined-append between b p (q ∷ qs) = append_assoc b p (between ++ joined between q qs)

match_splits :
    (source s b : Text) (n : ℕ)
    → match_here source s ≡ some b
    → n ≡ length source + length b
    → s ≡ source ++ (b ++ drop n s)
unfolding match_here
match_splits [] [] b zero h e = ground arith
match_splits [] [] b (suc n) h e = ground arith
match_splits [] (c ∷ s) b zero h e = ground arith
match_splits [] (c ∷ s) b (suc zero) h e = ground arith
match_splits [] (c ∷ s) b (suc (suc n)) h e = ground arith
match_splits (d ∷ source) [] b n h e = cc
match_splits (d ∷ source) (c ∷ s) b zero h e = absurd (omega arith)
match_splits (d ∷ source) (c ∷ s) b (suc n) h e = ground (arith, match_splits source s b n)

module _ (d : ℕ) (source : Text) where
  source-pieces :
      (k : ℕ) (s : Text)
      → drop k s ≡ (let (p, qs) = pieces (d ∷ source) k s in joined (d ∷ source) p qs)
  unfolding pieces joined
  source-pieces zero [] = refl
  source-pieces (suc k) [] = refl
  source-pieces (suc k) (c ∷ s) = source-pieces k s
  source-pieces zero (c ∷ s) = elim (Option-cases (match_here (d ∷ source) (c ∷ s))) [
    | inl e ↦ ground (
      arith,
      source-pieces zero s,
      joined-append (d ∷ source) (c ∷ []) (pieces (d ∷ source) zero s).0
          (pieces (d ∷ source) zero s).1,
    )
    | inr (b, e) ↦
        let k : ℕ = length (d ∷ source) + length b - 1 in
        let (p, qs) = pieces (d ∷ source) k s in
        ground (
          arith,
          match_splits (d ∷ source) (c ∷ s) b (suc k) e (omega arith),
          source-pieces k s,
          joined-append (d ∷ source) b p qs,
        )
  ]

module _ (d : ℕ) (source target : Text) (plain : Lacks b'$' target) where
  replaced-pieces :
      (k : ℕ) (s : Text)
      → replace_all (d ∷ source) (target ++ codes "$2") k s
        ≡ (let (p, qs) = pieces (d ∷ source) k s in joined target p qs)
  unfolding replace_all pieces joined
  replaced-pieces k [] = refl
  replaced-pieces (suc k) (c ∷ s) = replaced-pieces k s
  replaced-pieces zero (c ∷ s) = elim (Option-cases (match_here (d ∷ source) (c ∷ s))) [
    | inl e ↦ ground (
      arith,
      replaced-pieces zero s,
      joined-append target (c ∷ []) (pieces (d ∷ source) zero s).0 (pieces (d ∷ source) zero s).1,
    )
    | inr (b, e) ↦
        let k : ℕ = length (d ∷ source) + length b - 1 in
        let (p, qs) = pieces (d ∷ source) k s in
        ground (
          arith,
          expand-boundary (d ∷ source) b target plain,
          replaced-pieces k s,
          joined-append target b p qs,
          append_assoc target b (joined target p qs),
        )
  ]

after-append :
    (source p t : Text) {r : Text} → after source p ≡ some r → after source (p ++ t) ≡ some (r ++ t)
unfolding after
after-append [] p t h = ground arith
after-append (d ∷ source) [] t h = cc
after-append (d ∷ source) (c ∷ p) t {r} h = ground (arith, after-append source p t {r = r})

not_standing :
    (last : Bool) (source p t : Text)
    → match_here source (p ++ t) ≡ none
    → (last ≡ true → t ≡ [])
    → standing last (after source p) ≡ false
unfolding match_here
not_standing last source p t h end = elim (Option-cases (after source p)) [
  | inl e ↦ rw e
  | inr ([], e) ↦ elim (Bool-cases last) [
    | inl l ↦ absurd (ground (arith, after-append source p t e, end l))
    | inr l ↦ ground arith
  ]
  | inr (c ∷ r, e) ↦ ground (arith, after-append source p t e)
]

match_end :
    (source s : Text) (n : ℕ) → match_here source s ≡ some [] → n ≡ length source → drop n s ≡ []
unfolding match_here
match_end [] [] n h e = ground arith
match_end [] (c ∷ s) n h e = ground arith
match_end (d ∷ source) [] n h e = cc
match_end (d ∷ source) (c ∷ s) zero h e = absurd (omega arith)
match_end (d ∷ source) (c ∷ s) (suc n) h e = ground (arith, match_end source s n)

match_char :
    (source s : Text) {b : Text}
    → match_here source s ≡ some b
    → (b ≡ []) ⊎ ((c : ℕ) × (b ≡ c ∷ []) × (is_path_char c ≡ false))
unfolding match_here
match_char source s h = elim (Option-cases (after source s)) [
  | inl e ↦ absurd (ground arith)
  | inr ([], e) ↦ inl (ground arith)
  | inr (c ∷ r, e) ↦ inr (c, ground arith, ground arith)
]

module _ (d : ℕ) (source : Text) (word : is_path_char d ≡ true) where
  left_standing-cons :
      (c : ℕ) (p : Text) (qs : List Text)
      → match_here (d ∷ source) (c ∷ joined (d ∷ source) p qs) ≡ none
      → left_standing (d ∷ source) p qs ≡ false
      → left_standing (d ∷ source) (c ∷ p) qs ≡ false
  unfolding left_standing joined
  left_standing-cons c p [] h ih =
      rw (not_standing true (d ∷ source) (c ∷ p) [] (rw append-nil h) (λ _. refl)) ih
  left_standing-cons c p (q ∷ qs) h ih = ground (
    arith,
    not_standing false (d ∷ source) (c ∷ p) ((d ∷ source) ++ joined (d ∷ source) q qs) h
        (λ e. absurd (cc)),
  )

  -- The boundary that a match has taken does not begin the source.
  left_standing-boundary :
      (c : ℕ) (p : Text) (qs : List Text)
      → is_path_char c ≡ false
      → left_standing (d ∷ source) p qs ≡ false
      → left_standing (d ∷ source) (c ∷ p) qs ≡ false
  unfolding left_standing after
  left_standing-boundary c p [] h ih = ground arith
  left_standing-boundary c p (q ∷ qs) h ih = ground arith

  nothing_joined :
      (p : Text) (qs : List Text) → joined (d ∷ source) p qs ≡ [] → (p ≡ []) × (qs ≡ [])
  unfolding joined
  nothing_joined [] [] h = (refl, refl)
  nothing_joined [] (q ∷ qs) h = absurd (cc)
  nothing_joined (c ∷ p) [] h = absurd (cc)
  nothing_joined (c ∷ p) (q ∷ qs) h = absurd (cc)

  apart-cons :
      (q : Text) (qs : List Text) → begins_apart q ≡ true → apart qs ≡ true → apart (q ∷ qs) ≡ true
  apart-cons q [] h a = ground arith
  apart-cons q (r ∷ qs) h a = ground arith

  abbrev Cut : Text → List Text → Type 0
  Cut p qs = (apart qs ≡ true) × (left_standing (d ∷ source) p qs ≡ false)

  module _ (p : Text) (qs : List Text) where
    Cut-end : (b : Text) → b ≡ [] → joined (d ∷ source) p qs ≡ [] → Cut [] ((b ++ p) ∷ qs)
    unfolding left_standing is_empty
    Cut-end b e h = ground (arith, nothing_joined p qs h)

    Cut-char :
        (b : Text) (x : ℕ) → b ≡ x ∷ [] → is_path_char x ≡ false → Cut p qs → Cut [] ((b ++ p) ∷ qs)
    unfolding left_standing
    Cut-char b x e out (a, l) =
        subst (λ (w : Text). Cut [] ((w ++ p) ∷ qs)) (sym e)
          (apart-cons (x ∷ p) qs (ground arith) a, left_standing-boundary x p qs out l)

  pieces-Cut : (k : ℕ) (s : Text) → (let (p, qs) = pieces (d ∷ source) k s in Cut p qs)
  unfolding pieces left_standing
  pieces-Cut k [] = (refl, refl)
  pieces-Cut (suc k) (c ∷ s) = pieces-Cut k s
  pieces-Cut zero (c ∷ s) = elim (Option-cases (match_here (d ∷ source) (c ∷ s))) [
    | inl e ↦
        rw (e, pieces)
          (
            (pieces-Cut zero s).0,
            left_standing-cons c _ _ (rw (← source-pieces d source zero s) e) (pieces-Cut zero s).1,
          )
    | inr (b, e) ↦
        let k : ℕ = length (d ∷ source) + length b - 1 in
        let (p, qs) = pieces (d ∷ source) k s in
        elim (match_char (d ∷ source) (c ∷ s) e) [
          | inl end ↦
              rw (e, pieces)
                (Cut-end p qs b end (
                  rw (← source-pieces d source k s)
                    (match_end (d ∷ source) (c ∷ s) (suc k) (e ∙ ap some end) (ground arith))))
          | inr (x, one, out) ↦ rw (e, pieces) (Cut-char p qs b x one out (pieces-Cut k s))
        ]
  ]

after-absent : (source s : Text) → has_prefix s source ≡ false → after source s ≡ none
unfolding after has_prefix
after-absent [] s h = cc
after-absent (d ∷ source) [] h = refl
after-absent (d ∷ source) (c ∷ s) h = ground (arith, after-absent source s)

stands_in-absent : (source s : Text) → contains s source ≡ false → stands_in true source s ≡ false
unfolding stands_in contains
stands_in-absent source [] h = refl
stands_in-absent source (c ∷ s) h =
    ground (arith, after-absent source (c ∷ s), stands_in-absent source s)

-- What `rewrite_module_path` returns, where the source begins with a character of a module path and
-- the target, which is not empty, has no dollar sign: there are pieces of which the text is made
-- with the source between them and the result with the target between them. Each piece after a
-- source begins with a character that cannot go on a path, or it is empty and the last; and no
-- source is left that stands in a piece with such a character or the end of the text behind it.
pub rewritten_in_pieces :
    (d : ℕ) (source contents target : Text)
    → is_path_char d ≡ true
    → Lacks b'$' target
    → is_empty target ≡ false
    → (p : Text) × (qs : List Text) × (contents ≡ joined (d ∷ source) p qs)
      × (rewrite_module_path contents (d ∷ source) target ≡ joined target p qs)
      × (apart qs ≡ true)
      × (left_standing (d ∷ source) p qs ≡ false)
unfolding rewrite_module_path is_empty joined left_standing
rewritten_in_pieces d source contents target word plain full =
    elim (Bool-cases (contains contents (d ∷ source))) [
      | inl there ↦
          rw (full, there)
            (let (p, qs) = pieces (d ∷ source) zero contents in
              (
                p,
                qs,
                source-pieces d source zero contents,
                replaced-pieces d source target plain zero contents,
                (pieces-Cut d source word zero contents).0,
                (pieces-Cut d source word zero contents).1,
              ))
      | inr absent ↦
          rw (full, absent)
            (contents, [], refl, refl, refl, stands_in-absent (d ∷ source) contents absent)
    ]
