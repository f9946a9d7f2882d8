-- ===== src/Base/Decimal.antt =====
-- Python's `str` of a natural number: its decimal digits.
use Prim.Native.Nat.{ℕ, zero, suc, ◌+◌, ◌-◌, ◌*◌, ◌/◌, ◌%◌, ◌≤◌, ◌<◌}
use mathlib.Core.Path.{◌≡◌, refl, ap}
use mathlib.Core.List.{[], ◌∷◌, ◌++◌, foldl, foldl-append}
use native.Mathlib.Omega.{arith}
use coa.Base.Tests.{ltb, if◌then◌else◌}
use coa.Base.Lists.{All, All-append}
use coa.Base.Text.{Text, codes}

digits : ℕ → ℕ → Text
digits zero n = []
digits (suc fuel) n =
    let high = digits fuel (n / 10) in
    if ltb n 10 then (b'0' + n) ∷ [] else high ++ (b'0' + n % 10) ∷ []

unfoldable pub str : ℕ → Text
unfolding digits
str n = digits (suc n) n

-- the number that digits spell
value : Text → ℕ
value = foldl (λ n c. n * 10 + (c - b'0')) 0

value-concat : (s : Text) (d : ℕ) → d < 10 → value (s ++ (b'0' + d) ∷ []) ≡ value s * 10 + d
unfolding value
value-concat s d h = rw foldl-append (omega arith)

value_one : (d : ℕ) → d < 10 → value ((b'0' + d) ∷ []) ≡ d
unfolding value
value_one d h = omega arith

value-digits : (fuel n : ℕ) → n < fuel → value (digits fuel n) ≡ n
unfolding digits
value-digits zero n h = absurd (omega arith)
value-digits (suc fuel) n h =
    ground
      (arith, value-digits fuel (n / 10), value_one n, value-concat (digits fuel (n / 10)) (n % 10))

value-str : (n : ℕ) → value (str n) ≡ n
unfolding str
value-str n = value-digits (suc n) n (omega arith)

-- Different numbers are written differently.
pub str_inj : (m n : ℕ) → str m ≡ str n → m ≡ n
str_inj m n e = omega (arith, ap value e, value-str m, value-str n)

abbrev pub IsDigit : ℕ → Type 0
IsDigit c = (b'0' ≤ c) × (c ≤ b'9')

digits-IsDigit : (fuel n : ℕ) → All IsDigit (digits fuel n)
unfolding digits
digits-IsDigit zero n = tt
digits-IsDigit (suc fuel) n = ground (
  arith,
  All-append IsDigit (digits fuel (n / 10)) ((b'0' + n % 10) ∷ []) (digits-IsDigit fuel (n / 10)),
)

pub str-IsDigit : (n : ℕ) → All IsDigit (str n)
unfolding str
str-IsDigit n = digits-IsDigit (suc n) n

str_1042 : str 1042 ≡ codes "1042"
unfolding str
str_1042 = refl
