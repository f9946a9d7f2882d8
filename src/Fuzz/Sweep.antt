-- ===== src/Fuzz/Sweep.antt =====
-- eqgen/fuzz/sweep.py: one builder on its own, over many seeds. What the generator and the two
-- databases do with a seed under the swept weights is a parameter, and so is the text that tells how
-- two objects differ.
pub mod Counts
mod Tests
use coa.Base.{
  ℕ, zero, suc, ◌+◌, Bool, true, false, ◌||◌, if◌then◌else◌, Option, none, some, List, [], ◌∷◌, map,
  any,
}
use coa.Base.Text.{Text, codes, text_eq}
use coa.Fuzz.Objects.{ObjectComparison, object_equal}

-- what came of a seed: an exception of the generator, a tree without the builder, a comparison, or an
-- exception of the databases
pub data Trial (Row : Type 0) : Type 0 where
  not_built : Text → Trial Row
  unused : Trial Row
  compared : ObjectComparison Row → Trial Row
  broke : Text → Trial Row

pub record SweepResult : Type 0 where
  pub ok : ℕ
  pub not_equivalent : ℕ
  pub failed : ℕ
  pub not_exercised : ℕ
  pub first_failure : Option Text
  pub first_divergence : Option Text

abbrev pub no_result : SweepResult
no_result = record {
  ok = 0;
  not_equivalent = 0;
  failed = 0;
  not_exercised = 0;
  first_failure = none;
  first_divergence = none;
}

-- `SweepResult.verdict`
unfoldable pub sweep_verdict : SweepResult → Text
sweep_verdict r = by_counts r.not_equivalent r.ok r.failed
  where
    by_counts : ℕ → ℕ → ℕ → Text
    by_counts (suc n) o f = codes "NOT EQUIVALENT"
    by_counts zero (suc o) f = codes "ok"
    by_counts zero zero (suc f) = codes "failed"
    by_counts zero zero zero = codes "not_exercised"

-- `SCAFFOLD`
abbrev pub scaffold : List Text
scaffold =
    codes "CreateViewBuilder" ∷ codes "SelectStarQueryBuilder" ∷ codes "BaseTableSourceBuilder" ∷ []

unfoldable pub swept_weight : Text → Text → ℕ
unfolding text_eq
swept_weight builder name =
    if text_eq name builder then 20 else if any (text_eq name) scaffold then 1 else 0

-- the weights of a sweep: the builder's, the scaffold's, and zero for the others
unfoldable pub swept_weights : Text → List (Text × ℕ) → List (Text × ℕ)
unfolding swept_weight
swept_weights builder weights = map (λ w. (w.0, swept_weight builder w.0)) weights

-- `old or new`
unfoldable pub first_of : Option Text → Text → Option Text
first_of none new = some new
first_of (some []) new = some new
first_of (some (c ∷ s)) new = some (c ∷ s)

module _ {Row : Type 0} (detail : ObjectComparison Row → Text) where
  -- the body of the loop
  unfoldable pub sweep_step : SweepResult → Trial Row → SweepResult
  unfolding first_of object_equal
  sweep_step r (not_built e) = record r {
    failed = r.failed + 1;
    first_failure = first_of r.first_failure e;
  }
  sweep_step r unused = record r { not_exercised = r.not_exercised + 1 }
  sweep_step r (compared c) =
      let same = record r { ok = r.ok + 1 } in
      let differs = record r {
        not_equivalent = r.not_equivalent + 1;
        first_divergence = first_of r.first_divergence (detail c);
      } in
      if object_equal c then same else differs
  sweep_step r (broke e) = record r {
    failed = r.failed + 1;
    first_failure = first_of r.first_failure e;
  }

  module _ (trial : List (Text × ℕ) → ℕ → Trial Row) where
    unfoldable pub sweep_loop : List (Text × ℕ) → ℕ → ℕ → SweepResult → SweepResult
    unfolding sweep_step
    sweep_loop weights seed zero r = r
    sweep_loop weights seed (suc left) r =
        sweep_loop weights (seed + 1) left (sweep_step r (trial weights seed))

    -- `sweep_builder`
    unfoldable pub sweep_builder : List (Text × ℕ) → Text → ℕ → SweepResult
    unfolding sweep_loop swept_weights text_eq
    sweep_builder weights builder seeds =
        let swept = sweep_loop (swept_weights builder weights) 0 seeds no_result in
        if any (λ w. text_eq w.0 builder) weights
        then swept
        else record no_result { not_exercised = seeds }
