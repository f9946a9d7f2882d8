-- ===== src/Fuzz/Verdict.antt =====
-- eqgen/fuzz/compare.py: one query on both sides, and what a difference means. An outcome is what
-- `Database.query` of eqgen/fuzz/database.py returns: the rows, or an error and its known cause.
use coa.Base.{
  ℕ, ◌+◌, Bool, true, false, not, ◌&&◌, ◌||◌, if◌then◌else◌, Option, none, some, is_some, List, [],
  ◌∷◌, ◌≡◌, refl, filter, length, arith,
}
use coa.Base.Text.{Text}
use coa.Fuzz.Multiset.{Counter, MultisetDiff}

pub record QueryOutcome (Row : Type 0) : Type 0 where
  pub rows : Option (Counter Row)
  pub error : Option Text
  pub known_issue : Option Text

pub record QueryComparison (Row : Type 0) : Type 0 where
  pub query : Text
  pub equal : Bool
  pub only_in_base : Counter Row
  pub only_in_equivalent : Counter Row
  pub base_error : Option Text
  pub equivalent_error : Option Text
  pub equivalent_known_issue : Option Text
  pub reconciled : ℕ

abbrev one_if : Bool → ℕ
one_if true = 1
one_if false = 0

by_equality : (b : Bool) → one_if b + one_if (not b) + 0 + 0 + 0 ≡ 1
by_equality true = omega arith
by_equality false = omega arith

module _ {Row : Type 0} where
  -- what `Database.query` builds: rows and no error, or an error, with a label or without
  unfoldable pub succeeded : Counter Row → QueryOutcome Row
  succeeded rows = record { rows = some rows; error = none; known_issue = none }

  unfoldable pub failed : Text → Option Text → QueryOutcome Row
  failed error label = record { rows = none; error = some error; known_issue = label }

  pub data FromQuery : QueryOutcome Row → Type 0 where
    ran : (rows : Counter Row) → FromQuery (succeeded rows)
    broke : (error : Text) (label : Option Text) → FromQuery (failed error label)

  unfoldable pub is_uncomparable : QueryComparison Row → Bool
  is_uncomparable r = is_some r.base_error

  unfoldable pub is_pass : QueryComparison Row → Bool
  is_pass r = not (is_some r.base_error) && not (is_some r.equivalent_error) && r.equal

  unfoldable pub is_known_issue : QueryComparison Row → Bool
  is_known_issue r = not (is_some r.base_error) && is_some r.equivalent_known_issue

  unfoldable pub is_error : QueryComparison Row → Bool
  is_error r =
      not (is_some r.base_error)
      && is_some r.equivalent_error
      && not (is_some r.equivalent_known_issue)

  unfoldable pub is_mismatch : QueryComparison Row → Bool
  is_mismatch r = not (is_some r.base_error) && not (is_some r.equivalent_error) && not r.equal

  unfoldable pub is_reportable : QueryComparison Row → Bool
  unfolding is_error is_mismatch
  is_reportable r = is_error r || is_mismatch r

  abbrev of_diff : Text → MultisetDiff Row → QueryComparison Row
  of_diff query diff = record {
    query = query;
    equal = diff.equal;
    only_in_base = diff.only_in_base;
    only_in_equivalent = diff.only_in_other;
    base_error = none;
    equivalent_error = none;
    equivalent_known_issue = none;
    reconciled = diff.reconciled;
  }

  abbrev of_failure : Text → QueryOutcome Row → QueryOutcome Row → QueryComparison Row
  of_failure query base equivalent = record {
    query = query;
    equal = false;
    only_in_base = [];
    only_in_equivalent = [];
    base_error = base.error;
    equivalent_error = equivalent.error;
    equivalent_known_issue = equivalent.known_issue;
    reconciled = 0;
  }

  -- `compare_one`, from the two sides' outcomes
  unfoldable pub compare_one :
      (Counter Row → Counter Row → MultisetDiff Row)
      → Text
      → QueryOutcome Row
      → QueryOutcome Row
      → QueryComparison Row
  compare_one compare query base equivalent = elim base.rows [
    | none ↦ of_failure query base equivalent
    | some rows ↦ elim equivalent.rows [
      | none ↦ of_failure query base equivalent
      | some others ↦ of_diff query (compare rows others)
    ]
  ]

  unfoldable pub errors : List (QueryComparison Row) → List (QueryComparison Row)
  unfolding is_error
  errors = filter is_error

  unfoldable pub mismatches : List (QueryComparison Row) → List (QueryComparison Row)
  unfolding is_mismatch
  mismatches = filter is_mismatch

  unfoldable pub findings : List (QueryComparison Row) → List (QueryComparison Row)
  unfolding is_reportable
  findings = filter is_reportable

  -- how many of the five outcomes a comparison is counted under
  abbrev pub outcomes : QueryComparison Row → ℕ
  unfolding is_pass is_mismatch is_error is_known_issue is_uncomparable
  outcomes r =
      one_if (is_pass r)
      + one_if (is_mismatch r)
      + one_if (is_error r)
      + one_if (is_known_issue r)
      + one_if (is_uncomparable r)

  -- A comparison of two outcomes that `Database.query` can return, whatever compares the rows,
  -- counts as exactly one of pass, mismatch, error, known issue and uncomparable.
  pub compare_one-outcomes :
      (compare : Counter Row → Counter Row → MultisetDiff Row) (query : Text)
      (base equivalent : QueryOutcome Row)
      → FromQuery base
      → FromQuery equivalent
      → outcomes (compare_one compare query base equivalent) ≡ 1
  unfolding compare_one succeeded failed outcomes
  compare_one-outcomes compare query _ _ (ran rows) (ran others) =
      by_equality (compare rows others).equal
  compare_one-outcomes compare query _ _ (ran rows) (broke e none) = omega arith
  compare_one-outcomes compare query _ _ (ran rows) (broke e (some l)) = omega arith
  compare_one-outcomes compare query _ _ (broke e none) (ran rows) = omega arith
  compare_one-outcomes compare query _ _ (broke e (some l)) (ran rows) = omega arith
  compare_one-outcomes compare query _ _ (broke e none) (broke f none) = omega arith
  compare_one-outcomes compare query _ _ (broke e none) (broke f (some l)) = omega arith
  compare_one-outcomes compare query _ _ (broke e (some l)) (broke f none) = omega arith
  compare_one-outcomes compare query _ _ (broke e (some l)) (broke f (some k)) = omega arith

  -- The findings of a run are as many as its errors and its mismatches together: no comparison is
  -- reported as both.
  findings-length :
      (results : List (QueryComparison Row))
      → length (findings results) ≡ length (errors results) + length (mismatches results)
  unfolding findings errors mismatches is_reportable is_error is_mismatch
  findings-length [] = refl
  findings-length (r ∷ rs) =
      counted (is_some r.base_error) (is_some r.equivalent_error) (is_some r.equivalent_known_issue)
        r.equal (findings-length rs)
    where
      counted :
          (b e k q : Bool)
          → length (findings rs) ≡ length (errors rs) + length (mismatches rs)
          → length (
              if (not b && e && not k) || (not b && not e && not q)
              then r ∷ findings rs
              else findings rs)
            ≡ length (if not b && e && not k then r ∷ errors rs else errors rs)
              + length (if not b && not e && not q then r ∷ mismatches rs else mismatches rs)
      counted true e k q h = h
      counted false true true q h = h
      counted false true false q h = omega (arith, h)
      counted false false k true h = h
      counted false false k false h = omega (arith, h)
