-- ===== src/Config/Weighted.antt =====
-- eqgen/config/weighted.py: items ordered by a weighted draw without replacement. The key of an
-- item, which the program takes from the logarithm of a random number, is a parameter.
use mathlib.Core.List.{Perm}
use mathlib.Core.List.Perm
use coa.Base.{
  ℕ, ◌+◌, ltb, leb, if◌then◌else◌, Bool, true, false, List, [], ◌∷◌, ◌≡◌, refl, map, filter,
  perm_of_eq, ap, All, All-filter,
}

module _ {A : Type 0} where
  -- `keyed`: one random number for each item, in the order of the items
  unfoldable pub keyed : (A → ℕ) → (ℕ → ℕ → ℕ) → (ℕ → ℕ) → ℕ → List A → List (ℕ × A)
  keyed weight race draw i [] = []
  keyed weight race draw i (x ∷ xs) =
      (race (draw i) (weight x), x) ∷ keyed weight race draw (i + 1) xs

  unfoldable pub insert_key : ℕ × A → List (ℕ × A) → List (ℕ × A)
  insert_key k [] = k ∷ []
  insert_key k (j ∷ ks) = let rest = insert_key k ks in if leb k.0 j.0 then k ∷ j ∷ ks else j ∷ rest

  -- `keyed.sort(key=...)`, which keeps the order of equal keys
  unfoldable pub sort_keys : List (ℕ × A) → List (ℕ × A)
  unfolding insert_key
  sort_keys [] = []
  sort_keys (k ∷ ks) = insert_key k (sort_keys ks)

  unfoldable pub weighted_shuffle : (A → ℕ) → (ℕ → ℕ → ℕ) → (ℕ → ℕ) → ℕ → List A → List A
  unfolding keyed sort_keys
  weighted_shuffle weight race draw i items =
      map (λ k. k.1) (sort_keys (keyed weight race draw i (filter (λ x. ltb 0 (weight x)) items)))

  insert_key-Perm : (k : ℕ × A) (ks : List (ℕ × A)) → Perm (insert_key k ks) (k ∷ ks)
  unfolding insert_key
  insert_key-Perm k [] = Perm.refl _
  insert_key-Perm k (j ∷ ks) = placed (leb k.0 j.0) (insert_key-Perm k ks)
    where
      placed :
          (b : Bool)
          → Perm (insert_key k ks) (k ∷ ks)
          → Perm (if b then k ∷ j ∷ ks else j ∷ insert_key k ks) (k ∷ j ∷ ks)
      placed true h = Perm.refl _
      placed false h = Perm.trans (Perm.cons j h) (Perm.swap k j ks)

  sort_keys-Perm : (ks : List (ℕ × A)) → Perm (sort_keys ks) ks
  unfolding sort_keys
  sort_keys-Perm [] = Perm.refl []
  sort_keys-Perm (k ∷ ks) =
      Perm.trans (insert_key-Perm k (sort_keys ks)) (Perm.cons k (sort_keys-Perm ks))

  keyed-items :
      (weight : A → ℕ) (race : ℕ → ℕ → ℕ) (draw : ℕ → ℕ) (i : ℕ) (xs : List A)
      → map (λ k. k.1) (keyed weight race draw i xs) ≡ xs
  unfolding keyed
  keyed-items weight race draw i [] = refl
  keyed-items weight race draw i (x ∷ xs) =
      ap (λ ys. x ∷ ys) (keyed-items weight race draw (i + 1) xs)

  -- Whatever the random numbers and the key drawn from them, a weighted shuffle holds each item of
  -- a weight above zero as often as the input does, and no item of weight zero.
  pub weighted_shuffle-Perm :
      (weight : A → ℕ) (race : ℕ → ℕ → ℕ) (draw : ℕ → ℕ) (i : ℕ) (items : List A)
      → Perm (weighted_shuffle weight race draw i items) (filter (λ x. ltb 0 (weight x)) items)
  unfolding weighted_shuffle
  weighted_shuffle-Perm weight race draw i items =
      Perm.trans
        (Perm.map (λ k. k.1)
          (sort_keys-Perm (keyed weight race draw i (filter (λ x. ltb 0 (weight x)) items))))
        (perm_of_eq (keyed-items weight race draw i (filter (λ x. ltb 0 (weight x)) items)))

  insert_key-All :
      (P : A → Type 0) (k : ℕ × A) (ks : List (ℕ × A))
      → P k.1
      → All (λ j. P j.1) ks
      → All (λ j. P j.1) (insert_key k ks)
  unfolding insert_key
  insert_key-All P k [] h hs = (h, tt)
  insert_key-All P k (j ∷ ks) h hs = placed (leb k.0 j.0) (insert_key-All P k ks h hs.1)
    where
      placed :
          (b : Bool)
          → All (λ j. P j.1) (insert_key k ks)
          → All (λ j. P j.1) (if b then k ∷ j ∷ ks else j ∷ insert_key k ks)
      placed true r = (h, hs)
      placed false r = (hs.0, r)

  sort_keys-All :
      (P : A → Type 0) (ks : List (ℕ × A)) → All (λ j. P j.1) ks → All (λ j. P j.1) (sort_keys ks)
  unfolding sort_keys
  sort_keys-All P [] hs = tt
  sort_keys-All P (k ∷ ks) hs = insert_key-All P k (sort_keys ks) hs.0 (sort_keys-All P ks hs.1)

  keyed-All :
      (P : A → Type 0) (weight : A → ℕ) (race : ℕ → ℕ → ℕ) (draw : ℕ → ℕ) (i : ℕ) (xs : List A)
      → All P xs
      → All (λ j. P j.1) (keyed weight race draw i xs)
  unfolding keyed
  keyed-All P weight race draw i [] h = tt
  keyed-All P weight race draw i (x ∷ xs) h = (h.0, keyed-All P weight race draw (i + 1) xs h.1)

  items-All : (P : A → Type 0) (ks : List (ℕ × A)) → All (λ j. P j.1) ks → All P (map (λ k. k.1) ks)
  items-All P [] h = tt
  items-All P (k ∷ ks) h = (h.0, items-All P ks h.1)

  pub weighted_shuffle-All :
      (P : A → Type 0) (weight : A → ℕ) (race : ℕ → ℕ → ℕ) (draw : ℕ → ℕ) (i : ℕ) (items : List A)
      → All P items
      → All P (weighted_shuffle weight race draw i items)
  unfolding weighted_shuffle
  weighted_shuffle-All P weight race draw i items h = items-All P _ (
      sort_keys-All P _
        (keyed-All P weight race draw i _ (All-filter P (λ x. ltb 0 (weight x)) items h)))
