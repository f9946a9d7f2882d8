-- ===== src/Fuzz/Sweep/Counts.antt =====
-- eqgen/fuzz/sweep.py: what the counts and the verdict of a sweep say of its seeds.
use coa.Base.{
  ℕ, zero, suc, ◌+◌, ◌≤◌, ◌<◌, Bool, true, false, if◌then◌else◌, List, ◌≡◌, refl, sym, ap, ◌⊎◌, inl,
  inr, ◌↔◌, subst, not, any, ltb, Bool-cases, arith,
}
use coa.Base.Text.{Text, codes, text_eq}
use coa.Fuzz.Objects.{ObjectComparison, object_equal}
use coa.Fuzz.Sweep.{
  Trial, not_built, unused, compared, broke, SweepResult, no_result, sweep_verdict, swept_weights,
  sweep_step, sweep_loop, sweep_builder,
}

abbrev pub total : SweepResult → ℕ
total r = r.ok + r.not_equivalent + r.failed + r.not_exercised

abbrev pub diverges : {Row : Type 0} → Trial Row → Bool
diverges (compared c) = not (object_equal c)
diverges _ = false

verdict-not_equivalent :
    (r : SweepResult) → (sweep_verdict r ≡ codes "NOT EQUIVALENT") ↔ (1 ≤ r.not_equivalent)
unfolding sweep_verdict
verdict-not_equivalent r = by_counts r.not_equivalent r.ok r.failed
  where
    by_counts :
        (n o f : ℕ)
        → (sweep_verdict (record no_result { ok = o; not_equivalent = n; failed = f })
            ≡ codes "NOT EQUIVALENT")
          ↔ (1 ≤ n)
    by_counts (suc n) o f = (λ _. omega arith, λ _. refl)
    by_counts zero (suc o) f = (λ h. cc, λ h. absurd (omega (arith, h)))
    by_counts zero zero (suc f) = (λ h. cc, λ h. absurd (omega (arith, h)))
    by_counts zero zero zero = (λ h. cc, λ h. absurd (omega (arith, h)))

module _ {Row : Type 0} (detail : ObjectComparison Row → Text) where
  abbrev diverged : Bool → ℕ
  diverged b = if b then 1 else 0

  sweep_step-counts :
      (r : SweepResult) (t : Trial Row)
      → (total (sweep_step detail r t) ≡ total r + 1)
        × ((sweep_step detail r t).not_equivalent ≡ r.not_equivalent + diverged (diverges t))
  unfolding sweep_step
  sweep_step-counts r (not_built e) = (omega arith, omega arith)
  sweep_step-counts r unused = (omega arith, omega arith)
  sweep_step-counts r (broke e) = (omega arith, omega arith)
  sweep_step-counts r (compared c) = elim (Bool-cases (object_equal c)) [
    | inl same ↦ rw same (omega arith, omega arith)
    | inr other ↦ rw other (omega arith, omega arith)
  ]

  module _ (trial : List (Text × ℕ) → ℕ → Trial Row) where
    -- a seed of a range at which the comparison is unequal
    abbrev pub Diverges : List (Text × ℕ) → ℕ → ℕ → Type 0
    Diverges weights low high =
        (seed : ℕ) × (low ≤ seed) × (seed < high) × (diverges (trial weights seed) ≡ true)

    sweep_loop-total :
        (weights : List (Text × ℕ)) (seed left : ℕ) (r : SweepResult)
        → total (sweep_loop detail trial weights seed left r) ≡ total r + left
    unfolding sweep_loop
    sweep_loop-total weights seed zero r = omega arith
    sweep_loop-total weights seed (suc left) r =
        let t = trial weights seed in
        omega (
          arith,
          (sweep_step-counts r t).0,
          sweep_loop-total weights (seed + 1) left (sweep_step detail r t),
        )

    sweep_loop-found :
        (weights : List (Text × ℕ)) (seed left : ℕ) (r : SweepResult)
        → 1 ≤ (sweep_loop detail trial weights seed left r).not_equivalent
        → (1 ≤ r.not_equivalent) ⊎ Diverges weights seed (seed + left)
    unfolding sweep_loop
    sweep_loop-found weights seed zero r h = inl h
    sweep_loop-found weights seed (suc left) r h =
        let t = trial weights seed in
        elim (sweep_loop-found weights (seed + 1) left (sweep_step detail r t) h) [
          | inl counted ↦ first (diverges t) refl (sweep_step-counts r t).1 counted
          | inr later ↦ inr (later.0, omega (arith, later.1), omega (arith, later.2), later.3)
        ]
      where
        first :
            (b : Bool)
            → diverges (trial weights seed) ≡ b
            → (sweep_step detail r (trial weights seed)).not_equivalent
              ≡ r.not_equivalent + diverged b
            → 1 ≤ (sweep_step detail r (trial weights seed)).not_equivalent
            → (1 ≤ r.not_equivalent) ⊎ Diverges weights seed (seed + suc left)
        first true e more counted = inr (seed, omega arith, omega arith, e)
        first false e more counted = inl (omega (arith, more, counted))

    sweep_loop-kept :
        (weights : List (Text × ℕ)) (seed left : ℕ) (r : SweepResult)
        → 1 ≤ r.not_equivalent
        → 1 ≤ (sweep_loop detail trial weights seed left r).not_equivalent
    unfolding sweep_loop
    sweep_loop-kept weights seed zero r h = h
    sweep_loop-kept weights seed (suc left) r h =
        let t = trial weights seed in
        sweep_loop-kept weights (seed + 1) left (sweep_step detail r t)
          (omega (arith, h, (sweep_step-counts r t).1))

    sweep_loop-reports :
        (weights : List (Text × ℕ)) (seed left : ℕ) (r : SweepResult)
        → Diverges weights seed (seed + left)
        → 1 ≤ (sweep_loop detail trial weights seed left r).not_equivalent
    unfolding sweep_loop
    sweep_loop-reports weights seed zero r (k, low, high, d) = absurd (omega (arith, low, high))
    sweep_loop-reports weights seed (suc left) r (k, low, high, d) =
        let t = trial weights seed in
        elim (Bool-cases (ltb seed k)) [
          | inl later ↦
              sweep_loop-reports weights (seed + 1) left (sweep_step detail r t)
                (k, ground (arith, later), omega (arith, high), d)
          | inr now ↦
              sweep_loop-kept weights (seed + 1) left (sweep_step detail r t)
                (here (ground (arith, now, low)))
        ]
      where
        here : seed ≡ k → 1 ≤ (sweep_step detail r (trial weights seed)).not_equivalent
        here e =
            let this = subst (λ s. diverges (trial weights s) ≡ true) (sym e) d in
            omega (arith, (sweep_step-counts r (trial weights seed)).1, ap diverged this)

    -- The sweep of a builder that the configuration names counts each seed exactly once, and its
    -- verdict is NOT EQUIVALENT exactly when at some seed, under the swept weights, the objects
    -- compare as unequal, whatever failed at the other seeds.
    pub sweep_builder-counts :
        (weights : List (Text × ℕ)) (builder : Text) (seeds : ℕ)
        → any (λ w. text_eq w.0 builder) weights ≡ true
        → (total (sweep_builder detail trial weights builder seeds) ≡ seeds)
          × ((sweep_verdict (sweep_builder detail trial weights builder seeds)
                ≡ codes "NOT EQUIVALENT")
              ↔ Diverges (swept_weights builder weights) 0 seeds)
    unfolding sweep_builder
    sweep_builder-counts weights builder seeds known =
        let swept = swept_weights builder weights in
        let r = sweep_loop detail trial swept 0 seeds no_result in
        rw known (
          omega (arith, sweep_loop-total swept 0 seeds no_result),
          (
            λ h. found (sweep_loop-found swept 0 seeds no_result ((verdict-not_equivalent r).0 h)),
            λ h.
                (verdict-not_equivalent r).1
                  (sweep_loop-reports swept 0 seeds no_result (h.0, h.1, omega (arith, h.2), h.3)),
          ),
        )
      where
        found :
            (1 ≤ no_result.not_equivalent) ⊎ Diverges (swept_weights builder weights) 0 (0 + seeds)
            → Diverges (swept_weights builder weights) 0 seeds
        found (inl h) = absurd (omega (arith, h))
        found (inr h) = (h.0, h.1, omega (arith, h.2), h.3)
