-- ===== src/Fuzz/Floats.antt =====
-- Python's `float`, which the times of eqgen/fuzz/schedule.py and round.py are: a type with the
-- operations that these files use, and what IEEE 754 says of them. A sum, a product or a quotient is
-- rounded, a comparison with NaN is false, and rounding keeps the order of exact values.
pub mod Milli
use coa.Base.{ℕ, suc, ◌≤◌, Bool, true, false, if◌then◌else◌, ◌≡◌}

pub record Floats : Type 1 where
  pub Float : Type 0
  -- `float(n)`
  pub whole : ℕ → Float
  -- `m / n` on two `int`
  pub ratio : ℕ → ℕ → Float
  pub le : Float → Float → Bool
  pub lt : Float → Float → Bool
  pub plus : Float → Float → Float
  pub minus : Float → Float → Float
  pub times : Float → Float → Float
  -- `x // n`
  pub floor_quotient : Float → ℕ → Float

module _ (F : Floats) where
  -- not NaN
  abbrev pub IsNumber : F.Float → Type 0
  IsNumber x = F.le x x ≡ true

  -- `max(a, b)`, and `min(a, b)`: the first one unless the second is beyond it
  abbrev pub larger : F.Float → F.Float → F.Float
  larger a b = if F.lt a b then b else a

  abbrev pub smaller : F.Float → F.Float → F.Float
  smaller a b = if F.lt b a then b else a

-- The laws of IEEE 754 that a budget relies on.
pub record Rounds (F : Floats) : Type 1 where
  -- neither NaN nor an infinity
  pub IsFinite : F.Float → Type 0
  pub finite_number : (x : F.Float) → IsFinite x → IsNumber F x
  pub finite_between :
      (x y : F.Float) → F.le (F.whole 0) x ≡ true → F.le x y ≡ true → IsFinite y → IsFinite x
  pub le_trans : (x y z : F.Float) → F.le x y ≡ true → F.le y z ≡ true → F.le x z ≡ true
  pub lt_le : (x y : F.Float) → F.lt x y ≡ true → F.le x y ≡ true
  pub lt_le_trans : (x y z : F.Float) → F.lt x y ≡ true → F.le y z ≡ true → F.lt x z ≡ true
  pub le_number : (x y : F.Float) → F.le x y ≡ true → IsNumber F x × IsNumber F y
  -- numbers are in a linear order
  pub not_le : (x y : F.Float) → IsNumber F x → IsNumber F y → F.le x y ≡ false → F.lt y x ≡ true
  pub not_lt : (x y : F.Float) → IsNumber F x → IsNumber F y → F.lt x y ≡ false → F.le y x ≡ true
  pub whole_le : (m n : ℕ) → m ≤ n → F.le (F.whole m) (F.whole n) ≡ true
  pub ratio_nonneg : (m n : ℕ) → F.le (F.whole 0) (F.ratio m (suc n)) ≡ true
  -- what is taken from a finite number leaves a finite number
  pub minus_finite :
      (x y : F.Float)
      → IsFinite y
      → F.le (F.whole 0) x ≡ true
      → F.le x y ≡ true
      → IsFinite (F.minus y x) × (F.le (F.whole 0) (F.minus y x) ≡ true)
  -- a part of a finite number
  pub times_within :
      (x part : F.Float)
      → IsFinite x
      → F.le (F.whole 0) x ≡ true
      → F.le (F.whole 0) part ≡ true
      → F.le part (F.whole 1) ≡ true
      → (F.le (F.whole 0) (F.times x part) ≡ true) × (F.le (F.times x part) x ≡ true)
  pub plus_more :
      (x y : F.Float) → IsFinite x → F.le (F.whole 0) y ≡ true → F.le x (F.plus x y) ≡ true
  pub plus_le :
      (x y z : F.Float)
      → IsFinite x
      → F.le (F.whole 0) y ≡ true
      → F.le y z ≡ true
      → F.le (F.plus x y) (F.plus x z) ≡ true
