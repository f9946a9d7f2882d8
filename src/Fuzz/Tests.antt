-- ===== src/Fuzz/Tests.antt =====
-- Two sides of three rows, of which one differs within the tolerance, and the theorems at them.
use coa.Base.{
  ℕ, ==_iff, arith, ◌≢◌, ◌+◌, ◌==◌, leb, ◌&&◌, Bool, true, false, none, [], ◌∷◌, ◌≡◌, refl,
}
use coa.Base.Text.{codes}
use coa.Fuzz.Multiset.{count, Counter, MultisetDiff, compare_multisets}
use coa.Fuzz.Agreement.{total, compare_multisets-total, compare_multisets-equal-total}
use coa.Fuzz.Exact.{DistinctRows, compare_multisets-count, compare_multisets-same}
use coa.Fuzz.Verdict.{succeeded, failed, ran, broke, compare_one, outcomes, compare_one-outcomes}

-- numbers that differ by one at most are close
abbrev near : ℕ → ℕ → Bool
near m n = leb m (n + 1) && leb n (m + 1)

abbrev base_side : Counter ℕ
base_side = (10, 2) ∷ (20, 1) ∷ []

abbrev other_side : Counter ℕ
other_side = (10, 2) ∷ (21, 1) ∷ []

abbrev as_listed : Counter ℕ → Counter ℕ
as_listed counter = counter

-- one row is reconciled
near_run :
    compare_multisets ◌==◌ near as_listed base_side other_side
    ≡ record { equal = true; only_in_base = []; only_in_other = []; reconciled = 1 }
unfolding compare_multisets
near_run = refl

compare_multisets-total_example :
    total (compare_multisets ◌==◌ near as_listed base_side other_side).only_in_base
      + total other_side
    ≡ total base_side
      + total (compare_multisets ◌==◌ near as_listed base_side other_side).only_in_other
compare_multisets-total_example =
    compare_multisets-total ◌==◌ near as_listed base_side other_side (λ counter. refl)

near_equal : (compare_multisets ◌==◌ near as_listed base_side other_side).equal ≡ true
unfolding compare_multisets
near_equal = refl

compare_multisets-equal-total_example : total base_side ≡ total other_side
compare_multisets-equal-total_example =
    compare_multisets-equal-total ◌==◌ near as_listed base_side other_side near_equal

abbrev compare : Counter ℕ → Counter ℕ → MultisetDiff ℕ
compare base other = compare_multisets ◌==◌ near as_listed base other

compare_one-outcomes_example :
    outcomes (compare_one compare (codes "q") (succeeded base_side) (failed (codes "e") none)) ≡ 1
compare_one-outcomes_example =
    compare_one-outcomes compare (codes "q") (succeeded base_side) (failed (codes "e") none)
      (ran base_side) (broke (codes "e") none)

abbrev shuffled_side : Counter ℕ
shuffled_side = (20, 1) ∷ (10, 2) ∷ []

differ : (m n : ℕ) → (m == n) ≡ false → m ≢ n
differ m n h e = ground (arith, h, e)

base_side-DistinctRows : DistinctRows base_side
base_side-DistinctRows = ((differ 20 10 refl, tt), (tt, tt))

shuffled_side-DistinctRows : DistinctRows shuffled_side
shuffled_side-DistinctRows = ((differ 10 20 refl, tt), (tt, tt))

exact_equal : (compare_multisets ◌==◌ near as_listed base_side shuffled_side).equal ≡ true
unfolding compare_multisets
exact_equal = refl

exact_unreconciled : (compare_multisets ◌==◌ near as_listed base_side shuffled_side).reconciled ≡ 0
unfolding compare_multisets
exact_unreconciled = refl

compare_multisets-count_example : count ◌==◌ near 10 base_side ≡ count ◌==◌ near 10 shuffled_side
compare_multisets-count_example =
    compare_multisets-count ◌==◌ near ==_iff as_listed base_side shuffled_side
      base_side-DistinctRows exact_equal exact_unreconciled 10

same_counts : (x : ℕ) → count ◌==◌ near x base_side ≡ count ◌==◌ near x shuffled_side
unfolding count
same_counts x = ground arith

compare_multisets-same_example :
    ((compare_multisets ◌==◌ near as_listed base_side shuffled_side).equal ≡ true)
    × ((compare_multisets ◌==◌ near as_listed base_side shuffled_side).reconciled ≡ 0)
compare_multisets-same_example =
    compare_multisets-same ◌==◌ near ==_iff as_listed base_side shuffled_side base_side-DistinctRows
      shuffled_side-DistinctRows same_counts
