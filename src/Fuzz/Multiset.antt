-- ===== src/Fuzz/Multiset.antt =====
-- eqgen/fuzz/database.py: two counters of rows compared, first exactly and then within a tolerance.
-- Rows are taken up to Python's `==`; the tolerance on two rows is a parameter.
use coa.Base.{
  ℕ, ◌+◌, ◌-◌, ◌==◌, min, Bool, true, false, not, ◌&&◌, ◌||◌, if◌then◌else◌, List, [], ◌∷◌, filter,
  ltb,
}

-- `Counter[Row]`: a dictionary in the order of its first insertions
abbrev pub Counter : Type 0 → Type 0
Counter Row = List (Row × ℕ)

pub record MultisetDiff (Row : Type 0) : Type 0 where
  pub equal : Bool
  pub only_in_base : Counter Row
  pub only_in_other : Counter Row
  pub reconciled : ℕ

-- the rows of which some are left
abbrev pub leftover : {Row : Type 0} → Counter Row → Counter Row
leftover = filter (λ k. ltb 0 k.1)

abbrev pub is_empty : {Row : Type 0} → Counter Row → Bool
is_empty [] = true
is_empty (k ∷ ks) = false

module _ {Row : Type 0} (same close : Row → Row → Bool) where
  -- `counter[row]`, which is 0 at a row that it does not have
  unfoldable pub count : Row → Counter Row → ℕ
  count row [] = 0
  count row ((r, n) ∷ counter) = if same r row then n else count row counter

  -- `counter[row] -= shared`
  unfoldable pub subtract : Row → ℕ → Counter Row → Counter Row
  subtract row shared [] = []
  subtract row shared ((r, n) ∷ counter) =
      let rest = subtract row shared counter in
      if same r row then (r, n - shared) ∷ counter else (r, n) ∷ rest

  -- the exact loop: each row gives up what both sides have of it
  unfoldable pub consume_exact : Counter Row → Counter Row → Counter Row × Counter Row
  unfolding count subtract
  consume_exact [] extra = ([], extra)
  consume_exact ((row, n) ∷ missing) extra =
      let shared = min n (count row extra) in
      let (missing', extra') = consume_exact missing (subtract row shared extra) in
      ((row, n - shared) ∷ missing', extra')

  -- the inner approximate loop for one row of which `n` are left, with the `break` once none is:
  -- what is left of the row, the other side, and how many were reconciled
  unfoldable pub pair_row : Row → ℕ → Counter Row → ℕ × Counter Row × ℕ
  pair_row row n [] = (n, [], 0)
  pair_row row n ((o, m) ∷ extra) =
      let shared = min n m in
      let skipped = pair_row row n extra in
      let rest = pair_row row (n - shared) extra in
      if m == 0 || same o row || not (close row o)
      then (skipped.0, (o, m) ∷ skipped.1, skipped.2)
      else (if n - shared == 0
          then (0, (o, m - shared) ∷ extra, shared)
          else (rest.0, (o, m - shared) ∷ rest.1, shared + rest.2))

  -- the outer approximate loop
  unfoldable pub consume_close : Counter Row → Counter Row → Counter Row × Counter Row × ℕ
  unfolding pair_row
  consume_close [] extra = ([], extra, 0)
  consume_close ((row, n) ∷ missing) extra =
      let paired = if n == 0 then (n, extra, 0) else pair_row row n extra in
      let rest = consume_close missing paired.1 in
      ((row, paired.0) ∷ rest.0, rest.1, paired.2 + rest.2)

  -- `compare_multisets`; `by_repr` is the order in which a report lists rows
  unfoldable pub compare_multisets :
      (Counter Row → Counter Row) → Counter Row → Counter Row → MultisetDiff Row
  unfolding consume_exact consume_close
  compare_multisets by_repr base other =
      let (missing, extra) = consume_exact base other in
      let (missing', extra', reconciled) = consume_close missing extra in
      record {
        equal = is_empty (leftover missing') && is_empty (leftover extra');
        only_in_base = by_repr (leftover missing');
        only_in_other = by_repr (leftover extra');
        reconciled = reconciled;
      }
