-- ===== src/Base/Family.antt =====
-- Families indexed by numbers: a change at one index, and the sum of a weight over the first `n`.
use Prim.Native.Nat.{ℕ, zero, suc, ◌+◌, ◌≤◌, ◌<◌}
use mathlib.Core.Path.{◌≡◌, refl}
use native.Mathlib.Decide.{dec_lt}
use native.Mathlib.Omega.{arith}
use directory_size_exporter.Base.Tests.{if◌then◌else◌, nat_beq}

-- `f` with the value `a` at `i`.
abbrev pub change {ℓ} : {A : Type ℓ} → ℕ → A → (ℕ → A) → ℕ → A
change i a f j = if nat_beq i j then a else f j

module _ {ℓ} {A : Type ℓ} (weight : A → ℕ) where
  unfoldable pub sum_below : ℕ → (ℕ → A) → ℕ
  sum_below zero f = 0
  sum_below (suc n) f = weight (f n) + sum_below n f

  sum_below-change_above :
      (n i : ℕ) (a : A) (f : ℕ → A) → n ≤ i → sum_below n (change i a f) ≡ sum_below n f
  unfolding sum_below
  sum_below-change_above zero i a f h = refl
  sum_below-change_above (suc n) i a f h =
      ground (arith, sum_below-change_above n i a f (omega arith))

  -- A change below `n` trades one weight for the other.
  pub sum_below-change :
      (n i : ℕ) (a : A) (f : ℕ → A)
      → i < n
      → sum_below n (change i a f) + weight (f i) ≡ sum_below n f + weight a
  unfolding sum_below
  sum_below-change zero i a f h = absurd (omega arith)
  sum_below-change (suc n) i a f h = elim (dec_lt i n) [
    | yes below ↦ ground (arith, sum_below-change n i a f below)
    | no last ↦ ground (arith, sum_below-change_above n i a f (omega arith))
  ]

  pub sum_below-zero : (n : ℕ) (f : ℕ → A) → ((i : ℕ) → weight (f i) ≡ 0) → sum_below n f ≡ 0
  unfolding sum_below
  sum_below-zero zero f h = refl
  sum_below-zero (suc n) f h = omega (arith, h n, sum_below-zero n f h)
