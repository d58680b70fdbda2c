-- ===== src/Prelude/Families.antt =====
-- Families indexed by thread: a change at one index, and a sum over the first `n` indices.
use Prim.Native.Nat.{ℕ, zero, suc, ◌+◌, ◌≤◌, ◌<◌}
use mathlib.Core.Path.{◌≡◌, refl}
use mathlib.Core.Logic.{ite}
use native.Mathlib.Decide.{dec_lt, ℕ_discrete}
use native.Mathlib.Omega.{arith}

-- `f` with the value `a` at `i`.
abbrev pub at {ℓ} : {A : Type ℓ} → (ℕ → A) → ℕ → A → ℕ → A
at f i a j = ite (ℕ_discrete j i) a (f j)

module _ {ℓ} {A : Type ℓ} (weight : A → ℕ) where
  pub tally : ℕ → (ℕ → A) → ℕ
  tally zero f = 0
  tally (suc n) f = weight (f n) + tally n f

  tally_beyond : (n : ℕ) (f : ℕ → A) (i : ℕ) (a : A) → n ≤ i → tally n (at f i a) ≡ tally n f
  unfolding tally
  tally_beyond zero f i a h = refl
  tally_beyond (suc n) f i a h = ground (arith, tally_beyond n f i a)

  -- A change at `i` replaces one weight by another.
  pub tally-at :
      (n : ℕ) (f : ℕ → A) (i : ℕ) (a : A)
      → i < n
      → tally n (at f i a) + weight (f i) ≡ weight a + tally n f
  unfolding tally
  tally-at zero f i a h = absurd (omega arith)
  tally-at (suc n) f i a h = elim (dec_lt i n) [
    | yes inside ↦ ground (arith, tally-at n f i a inside)
    | no last ↦ ground (arith, tally_beyond n f i a)
  ]

  pub tally_none : (n : ℕ) (f : ℕ → A) → ((i : ℕ) → weight (f i) ≡ 0) → tally n f ≡ 0
  unfolding tally
  tally_none zero f h = refl
  tally_none (suc n) f h = omega (arith, h n, tally_none n f h)

  pub tally_one : (n : ℕ) (f : ℕ → A) (i : ℕ) → i < n → weight (f i) ≤ tally n f
  unfolding tally
  tally_one zero f i h = absurd (omega arith)
  tally_one (suc n) f i h = elim (dec_lt i n) [
    | yes inside ↦ omega (arith, tally_one n f i inside)
    | no last ↦ ground arith
  ]

-- A pointwise smaller weight has a smaller sum.
pub tally_mono {ℓ} :
    {A : Type ℓ} (v w : A → ℕ) (n : ℕ) (f : ℕ → A)
    → ((a : A) → v a ≤ w a)
    → tally v n f ≤ tally w n f
unfolding tally
tally_mono v w zero f h = omega arith
tally_mono v w (suc n) f h = omega (arith, h (f n), tally_mono v w n f h)
