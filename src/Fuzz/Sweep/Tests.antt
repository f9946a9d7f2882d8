-- ===== src/Fuzz/Sweep/Tests.antt =====
-- eqgen/fuzz/sweep.py on three seeds: one refused, one equal, one unequal.
use coa.Base.{ℕ, zero, suc, ◌≤◌, ◌<◌, Bool, true, false, List, [], ◌∷◌, ◌≡◌, refl, ◌↔◌}
use coa.Base.Text.{Text, codes, text_eq}
use coa.Fuzz.Multiset.{MultisetDiff}
use coa.Fuzz.Objects.{ObjectComparison}
use coa.Fuzz.Sweep.{
  Trial, not_built, compared, sweep_verdict, sweep_builder, swept_weights, swept_weight,
}
use coa.Fuzz.Sweep.Counts.{total, diverges, sweep_builder-counts}

abbrev rows : Bool → MultisetDiff ℕ
rows equal = record { equal = equal; only_in_base = []; only_in_other = []; reconciled = 0 }

abbrev objects : Bool → ObjectComparison ℕ
objects equal = record { rows = rows equal; base_types = []; equivalent_types = [] }

abbrev tried : List (Text × ℕ) → ℕ → Trial ℕ
tried weights zero = not_built (codes "ValueError: no")
tried weights (suc zero) = compared (objects true)
tried weights _ = compared (objects false)

abbrev told : ObjectComparison ℕ → Text
told c = codes "rows"

abbrev weights : List (Text × ℕ)
weights = (codes "CreateViewBuilder", 3) ∷ (codes "CteQueryBuilder", 2) ∷ (codes "Other", 5) ∷ []

three_weights :
    swept_weights (codes "CteQueryBuilder") weights
    ≡ (codes "CreateViewBuilder", 1) ∷ (codes "CteQueryBuilder", 20) ∷ (codes "Other", 0) ∷ []
unfolding swept_weights swept_weight text_eq
three_weights = refl

sweep_builder-counts_example :
    (total (sweep_builder told tried weights (codes "CteQueryBuilder") 3) ≡ 3)
    × ((sweep_verdict (sweep_builder told tried weights (codes "CteQueryBuilder") 3)
          ≡ codes "NOT EQUIVALENT")
        ↔ ((seed : ℕ) × (0 ≤ seed)
            × (seed < 3)
            × (diverges (tried (swept_weights (codes "CteQueryBuilder") weights) seed) ≡ true)))
unfolding text_eq
sweep_builder-counts_example =
    sweep_builder-counts told tried weights (codes "CteQueryBuilder") 3 refl
