-- ===== src/Equivalence/Emitter/Steps.antt =====
-- eqgen/equivalence/emitter.py: what a part of the walk of `emit_equivalence` starts from and leaves.
use coa.Base.{
  ℕ, suc, ◌<◌, ◌≤◌, ◌==◌, ==_iff, Bool, true, false, ◌||◌, List, [], ◌∷◌, ◌++◌, ◌≡◌, refl, ◌⊎◌, inl,
  inr, All, Bool-cases, arith,
}
use coa.Equivalence.Emitter.Walk.{contains, Walked, Emitted}

pub true-false : {b : Bool} → b ≡ true → b ≡ false → ⊥
true-false h k = cc

pub contains-head : (n : ℕ) (seen : List ℕ) → contains n (n ∷ seen) ≡ true
contains-head n seen = ground arith

pub contains-tail :
    (x n : ℕ) (seen : List ℕ) → contains x seen ≡ true → contains x (n ∷ seen) ≡ true
contains-tail x n seen h = ground arith

pub contains-cons :
    (x n : ℕ) (seen : List ℕ) → contains x (n ∷ seen) ≡ true → (n ≡ x) ⊎ (contains x seen ≡ true)
contains-cons x n seen h = elim (Bool-cases (n == x)) [
  | inl e ↦ inl ((==_iff n x).0 e)
  | inr e ↦ inr (ground arith)
]

pub contains-append : (x : ℕ) (s t : List ℕ) → contains x (s ++ t) ≡ contains x s || contains x t
contains-append x [] t = refl
contains-append x (n ∷ s) t = ground (arith, contains-append x s t)

-- what a node emits where the order alone counts
abbrev pub order : ℕ → List ℕ
order n = n ∷ []

module _ (children : ℕ → List ℕ) (acyclic : (n : ℕ) → All (λ c. c < n) (children n)) where
  -- what a walk of a node, or of nodes, finds and leaves
  pub record Stepped (P : ℕ → Type 0) (before after : Walked ℕ) : Type 0 where
    pub emitted : Emitted children after.1
    pub keeps : (x : ℕ) → contains x before.1 ≡ true → contains x after.1 ≡ true
    pub inside : (x : ℕ) → contains x after.1 ≡ true → contains x after.0 ≡ true
    pub grows : (x : ℕ) → contains x before.0 ≡ true → contains x after.0 ≡ true
    pub fresh :
        (x : ℕ)
        → contains x after.1 ≡ true
        → (contains x before.1 ≡ true) ⊎ ((contains x before.0 ≡ false) × P x)
    pub settled :
        (x : ℕ)
        → contains x after.0 ≡ true
        → (contains x after.1 ≡ true) ⊎ (contains x before.0 ≡ true)

  -- what a walk of nodes below `n` may start from: whatever is seen and not emitted is `n` or above
  pub record Ready (n : ℕ) (state : Walked ℕ) : Type 0 where
    pub emitted : Emitted children state.1
    pub inside : (x : ℕ) → contains x state.1 ≡ true → contains x state.0 ≡ true
    pub above : (x : ℕ) → contains x state.0 ≡ true → (contains x state.1 ≡ true) ⊎ (n ≤ x)

  pub stay : (P : ℕ → Type 0) (n : ℕ) (state : Walked ℕ) → Ready n state → Stepped P state state
  stay P n state r = record {
    emitted = r.emitted;
    keeps = λ x h. h;
    inside = r.inside;
    grows = λ x h. h;
    fresh = λ x h. inl h;
    settled = λ x h. inr h;
  }

  pub Ready-after :
      (P : ℕ → Type 0) (n : ℕ) (before after : Walked ℕ)
      → Ready n before
      → Stepped P before after
      → Ready n after
  Ready-after P n before after r s = record {
    emitted = s.emitted;
    inside = s.inside;
    above = λ x h. elim (s.settled x h) [
      | inl out ↦ inl out
      | inr seen ↦ elim (r.above x seen) [ inl out ↦ inl (s.keeps x out) | inr far ↦ inr far ]
    ];
  }

  pub both :
      (P Q : ℕ → Type 0) (a b c : Walked ℕ)
      → Stepped P a b
      → Stepped Q b c
      → Stepped (λ x. P x ⊎ Q x) a c
  both P Q a b c s t = record {
    emitted = t.emitted;
    keeps = λ x h. t.keeps x (s.keeps x h);
    inside = t.inside;
    grows = λ x h. t.grows x (s.grows x h);
    fresh = λ x h. elim (t.fresh x h) [
      | inl h ↦ elim (s.fresh x h) [ inl h ↦ inl h | inr k ↦ inr (k.0, inl k.1) ]
      | inr k ↦ inr (unseen x k.0, inr k.1)
    ];
    settled = λ x h. elim (t.settled x h) [
      | inl h ↦ inl h
      | inr h ↦ elim (s.settled x h) [ inl h ↦ inl (t.keeps x h) | inr h ↦ inr h ]
    ];
  }
    where
      unseen : (x : ℕ) → contains x b.0 ≡ false → contains x a.0 ≡ false
      unseen x h = elim (Bool-cases (contains x a.0)) [
        | inl k ↦ absurd (true-false (s.grows x k) h)
        | inr k ↦ k
      ]

  pub weaken :
      (P Q : ℕ → Type 0) (a b : Walked ℕ) → ((x : ℕ) → P x → Q x) → Stepped P a b → Stepped Q a b
  weaken P Q a b f s = record {
    emitted = s.emitted;
    keeps = s.keeps;
    inside = s.inside;
    grows = s.grows;
    fresh = λ x h. elim (s.fresh x h) [ inl h ↦ inl h | inr k ↦ inr (k.0, f x k.1) ];
    settled = s.settled;
  }

  pub lower : (n c : ℕ) (state : Walked ℕ) → c < n → Ready n state → Ready (suc c) state
  lower n c state h r = record {
    emitted = r.emitted;
    inside = r.inside;
    above = λ x k. elim (r.above x k) [ inl out ↦ inl out | inr far ↦ inr (omega arith) ];
  }
