-- ===== src/Fuzz/Floats/Milli.antt =====
-- Numbers of thousandths, rounded down, at which the laws of eqgen/fuzz's times are seen to hold.
use coa.Base.{ℕ, suc, ◌+◌, ◌-◌, ◌*◌, ◌/◌, ◌≤◌, ltb, leb, true, ◌≡◌, arith}
use coa.Fuzz.Floats.{Floats, Rounds}

abbrev pub milli : Floats
milli = record {
  Float = ℕ;
  whole = λ n. n * 1000;
  ratio = λ m n. m * 1000 / n;
  le = leb;
  lt = ltb;
  plus = λ x y. x + y;
  minus = λ x y. x - y;
  times = λ x y. x * y / 1000;
  floor_quotient = λ x n. x / (n * 1000) * 1000;
}

leb_le : (m n : ℕ) → leb m n ≡ true → m ≤ n
leb_le m n h = ground (arith, h)

le_leb : (m n : ℕ) → m ≤ n → leb m n ≡ true
le_leb m n h = ground (arith, h)

part_le : (x part : ℕ) → part ≤ 1000 → x * part ≤ x * 1000
part_le x part h = grind arith

thousandth_le : (m x : ℕ) → m ≤ x * 1000 → m / 1000 ≤ x
thousandth_le m x h = omega arith

pub milli-Rounds : Rounds milli
milli-Rounds = record {
  IsFinite = λ x. Unit;
  finite_number = λ x _. le_leb x x (omega arith);
  finite_between = λ x y _ _ _. tt;
  le_trans = λ x y z h k. ground (arith, h, k);
  lt_le = λ x y h. ground (arith, h);
  lt_le_trans = λ x y z h k. ground (arith, h, k);
  le_number = λ x y h. (le_leb x x (omega arith), le_leb y y (omega arith));
  not_le = λ x y _ _ h. ground (arith, h);
  not_lt = λ x y _ _ h. ground (arith, h);
  whole_le = λ m n h. le_leb (m * 1000) (n * 1000) (omega (arith, h));
  ratio_nonneg = λ m n. le_leb 0 (m * 1000 / suc n) (omega arith);
  minus_finite = λ x y _ h k. (tt, le_leb 0 (y - x) (omega arith));
  times_within = λ x part _ h k l. (
    le_leb 0 (x * part / 1000) (omega arith),
    le_leb (x * part / 1000) x (thousandth_le (x * part) x (part_le x part (leb_le part 1000 l))),
  );
  plus_more = λ x y _ h. le_leb x (x + y) (omega arith);
  plus_le = λ x y z _ h k. le_leb (x + y) (x + z) (omega (arith, leb_le y z k));
}

pub milli-IsFinite : (x : ℕ) → milli-Rounds.IsFinite x
unfolding milli-Rounds
milli-IsFinite x = tt
