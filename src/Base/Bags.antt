-- ===== src/Base/Bags.antt =====
-- Rows compared as bags: permutations of lists, for the splits and unions that the rewrites make.
use mathlib.Core.Path.{◌≡◌, refl, subst, ap}
use mathlib.Core.Logic.{ite}
use mathlib.Core.Bool.{Bool, true, false, ◌&&◌, ◌||◌}
use mathlib.Core.List.{List, [], ◌∷◌, ◌++◌, map, Perm, perm_middle}
use mathlib.Core.List
use mathlib.Core.List.Perm
use coa.Base.Tests.{if◌then◌else◌}
use coa.Base.Lists.{filter}

dec_true : (b : Bool) → Dec (b ≡ true)
dec_true true = yes refl
dec_true false = no (λ h. cc)

module _ {ℓ} {A : Type ℓ} where
  kept :
      (b : Bool) (x : A) (xs ys : List A)
      → xs ≡ ys
      → (if b then x ∷ xs else xs) ≡ ite (dec_true b) (x ∷ ys) ys
  unfolding dec_true
  kept true x xs ys h = ap (λ zs. x ∷ zs) h
  kept false x xs ys h = h

  filter-eq : (p : A → Bool) (xs : List A) → filter p xs ≡ List.filter (λ x. dec_true (p x)) xs
  filter-eq p [] = refl
  filter-eq p (x ∷ xs) = kept (p x) x (filter p xs) _ (filter-eq p xs)

  pub perm_filter : (p : A → Bool) {xs ys : List A} → Perm xs ys → Perm (filter p xs) (filter p ys)
  perm_filter p {xs} {ys} h =
      rw (filter-eq p xs, filter-eq p ys) (Perm.filter (λ x. dec_true (p x)) h)

  pub perm_of_eq : {xs ys : List A} → xs ≡ ys → Perm xs ys
  perm_of_eq {xs} e = subst (Perm xs) e (Perm.refl xs)

  merge_step :
      (x : A) (a b c : Bool) (ps qs : List A) {us : List A}
      → (a && b) ≡ false
      → c ≡ (a || b)
      → Perm (ps ++ qs) us
      → Perm ((if a then x ∷ ps else ps) ++ (if b then x ∷ qs else qs)) (if c then x ∷ us else us)
  merge_step x true true c ps qs d h r = cc
  merge_step x true false c ps qs d h r = rw h (Perm.cons x r)
  merge_step x false true c ps qs d h r = rw h (Perm.trans (perm_middle ps qs) (Perm.cons x r))
  merge_step x false false c ps qs d h r = rw h r

  -- Two tests of which no element passes both select, together, what their disjunction selects.
  pub perm_merge :
      (p q u : A → Bool) (xs : List A)
      → ((x : A) → (p x && q x) ≡ false)
      → ((x : A) → u x ≡ (p x || q x))
      → Perm (filter p xs ++ filter q xs) (filter u xs)
  perm_merge p q u [] d h = Perm.refl []
  perm_merge p q u (x ∷ xs) d h =
      merge_step x (p x) (q x) (u x) (filter p xs) (filter q xs) (d x) (h x)
        (perm_merge p q u xs d h)
