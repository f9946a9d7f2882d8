-- ===== src/Config/Tests.antt =====
-- A shuffle of three items, one of which has no weight.
use mathlib.Core.List.{Perm}
use coa.Base.{ℕ, ◌+◌, ◌*◌, ◌%◌, ltb, List, [], ◌∷◌, ◌≡◌, refl, filter}
use coa.Config.Weighted.{weighted_shuffle, weighted_shuffle-Perm}

abbrev weight_of : ℕ → ℕ
weight_of n = n % 3

abbrev race_of : ℕ → ℕ → ℕ
race_of u w = (u * 7 + w) % 5

abbrev items : List ℕ
items = 4 ∷ 6 ∷ 5 ∷ []

shuffled : weighted_shuffle weight_of race_of (λ i. i + 1) 0 items ≡ 5 ∷ 4 ∷ []
unfolding weighted_shuffle
shuffled = refl

weighted_shuffle-Perm_example :
    Perm
      (weighted_shuffle weight_of race_of (λ i. i + 1) 0 items)
      (filter (λ x. ltb 0 (weight_of x)) items)
weighted_shuffle-Perm_example = weighted_shuffle-Perm weight_of race_of (λ i. i + 1) 0 items
