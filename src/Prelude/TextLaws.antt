-- ===== src/Prelude/TextLaws.antt =====
-- Laws of the functions on text.
use git_sync_core.Prelude.{
  ℕ, ◌≡◌, refl, true, ◌||◌, [], ◌∷◌, ◌++◌, arith, ◌==◌, Text, same, has_prefix, contains, all, not,
}

pub same_self : (s : Text) → same s s ≡ true
unfolding same
same_self [] = refl
same_self (c ∷ s) = ground (arith, same_self s)

pub same_sound : (s t : Text) → same s t ≡ true → s ≡ t
unfolding same
same_sound [] [] h = refl
same_sound [] (d ∷ t) h = cc
same_sound (c ∷ s) [] h = cc
same_sound (c ∷ s) (d ∷ t) h = ground (arith, same_sound s t)

pub has_prefix-append : (s r p : Text) → has_prefix s p ≡ true → has_prefix (s ++ r) p ≡ true
unfolding has_prefix
has_prefix-append s r [] h = refl
has_prefix-append [] r (d ∷ p) h = cc
has_prefix-append (c ∷ s) r (d ∷ p) h = ground (arith, has_prefix-append s r p)

-- A text that is followed by another still contains what it contained.
pub contains-append_left : (s r t : Text) → contains s t ≡ true → contains (s ++ r) t ≡ true
unfolding contains
contains-append_left [] [] t h = h
contains-append_left [] (d ∷ r) t h = ground (arith, has_prefix-append [] (d ∷ r) t)
contains-append_left (c ∷ s) r t h =
    ground (arith, has_prefix-append (c ∷ s) r t, contains-append_left s r t)

pub contains-append_right : (s r t : Text) → contains r t ≡ true → contains (s ++ r) t ≡ true
unfolding contains
contains-append_right [] r t h = h
contains-append_right (c ∷ s) r t h = ground (arith, contains-append_right s r t)

abbrev pub Lacks : ℕ → Text → Type 0
Lacks c t = all (λ d. not (d == c)) t ≡ true

prefix_before :
    (a b : Text) (c : ℕ) (t : Text) → Lacks c t → has_prefix (a ++ c ∷ b) t ≡ has_prefix a t
unfolding has_prefix
prefix_before a b c [] h = refl
prefix_before [] b c (d ∷ t) h = ground arith
prefix_before (x ∷ a) b c (d ∷ t) h = ground (arith, prefix_before a b c t)

-- A text without the character `c` occurs on one side of `c` or on the other.
pub contains_around :
    (a b : Text) (c : ℕ) (t : Text)
    → Lacks c t
    → contains (a ++ c ∷ b) t ≡ (contains a t || contains b t)
unfolding contains
contains_around [] b c t h = ground (arith, prefix_before [] b c t h)
contains_around (x ∷ a) b c t h =
    ground (arith, prefix_before (x ∷ a) b c t h, contains_around a b c t h)
