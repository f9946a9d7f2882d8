-- ===== src/Fuzz/Exact.antt =====
-- The comparison where no row needs the tolerance: it agrees with the counts of every row.
use coa.Base.{
  ℕ, ◌+◌, ◌-◌, ◌≤◌, min, Bool, true, false, ◌&&◌, if◌then◌else◌, [], ◌∷◌, ◌≡◌, ◌≢◌, ◌↔◌, inl, inr,
  refl, sym, ap, ◌∙◌, subst, arith, All, Bool-cases,
}
use coa.Fuzz.Multiset.{
  Counter, count, subtract, consume_exact, consume_close, compare_multisets, leftover, is_empty,
}
use coa.Fuzz.Agreement.{
  total, consume_exact-total, consume_close-total, leftover-total, is_empty-total, and_parts,
}

-- no row has two entries, as in a dictionary
abbrev pub DistinctRows : {Row : Type 0} → Counter Row → Type 0
DistinctRows [] = Unit
DistinctRows (k ∷ counter) = All (λ j. j.0 ≢ k.0) counter × DistinctRows counter

-- a test that tells rows apart
abbrev pub TellsApart : {Row : Type 0} → (Row → Row → Bool) → Type 0
TellsApart {Row} same = (a b : Row) → (same a b ≡ true) ↔ (a ≡ b)

both_true : (a b : Bool) → a ≡ true → b ≡ true → (a && b) ≡ true
both_true a b h k = rw (h, k) refl

false_is_not_true : false ≢ true
false_is_not_true h = cc

module _ {Row : Type 0} (same close : Row → Row → Bool) (same_iff : TellsApart same) where
  apart : (a b : Row) → a ≢ b → same a b ≡ false
  apart a b h = elim (Bool-cases (same a b)) [ inl e ↦ absurd (h ((same_iff a b).0 e)) | inr e ↦ e ]

  count-absent : (r : Row) (c : Counter Row) → All (λ j. j.0 ≢ r) c → count same close r c ≡ 0
  unfolding count
  count-absent r [] h = refl
  count-absent r ((k, n) ∷ c) h = rw (apart k r h.0) (count-absent r c h.1)

  count-subtract :
      (r : Row) (s : ℕ) (c : Counter Row)
      → count same close r (subtract same close r s c) ≡ count same close r c - s
  unfolding count subtract
  count-subtract r s [] = omega arith
  count-subtract r s ((k, n) ∷ c) = step (same k r) refl (count-subtract r s c)
    where
      step :
          (b : Bool)
          → same k r ≡ b
          → count same close r (subtract same close r s c) ≡ count same close r c - s
          → count same close r (if b then (k, n - s) ∷ c else (k, n) ∷ subtract same close r s c)
            ≡ (if b then n else count same close r c) - s
      step true e h = rw e refl
      step false e h = rw e h

  count-subtract_other :
      (r x : Row) (s : ℕ) (c : Counter Row)
      → r ≢ x
      → count same close x (subtract same close r s c) ≡ count same close x c
  unfolding count subtract
  count-subtract_other r x s [] h = refl
  count-subtract_other r x s ((k, n) ∷ c) h = step (same k r) refl (count-subtract_other r x s c h)
    where
      step :
          (b : Bool)
          → same k r ≡ b
          → count same close x (subtract same close r s c) ≡ count same close x c
          → count same close x (if b then (k, n - s) ∷ c else (k, n) ∷ subtract same close r s c)
            ≡ (if same k x then n else count same close x c)
      step true e g = let d = apart k x (λ i. h (sym ((same_iff k r).0 e) ∙ i)) in rw (d) refl
      step false e g = ap (λ m. if same k x then n else m) g

  -- The exact loop leaves of each row what one side has more of it than the other.
  consume_exact-count :
      (x : Row) (missing extra : Counter Row)
      → DistinctRows missing
      → (count same close x (consume_exact same close missing extra).0
          ≡ count same close x missing - count same close x extra)
        × (count same close x (consume_exact same close missing extra).1
            ≡ count same close x extra - count same close x missing)
  unfolding count consume_exact
  consume_exact-count x [] extra d = (omega arith, omega arith)
  consume_exact-count x ((r, n) ∷ missing) extra d = step (same r x) refl (
      consume_exact-count x missing (subtract same close r (min n (count same close r extra)) extra)
        d.1)
    where
      step :
          (b : Bool)
          → same r x ≡ b
          → (let s = min n (count same close r extra) in
              let rest = consume_exact same close missing (subtract same close r s extra) in
              (count same close x rest.0
                  ≡ count same close x missing - count same close x (subtract same close r s extra))
                × (count same close x rest.1
                    ≡ count same close x (subtract same close r s extra)
                      - count same close x missing)
              → ((if b then n - s else count same close x rest.0)
                  ≡ (if b then n else count same close x missing) - count same close x extra)
                × (count same close x rest.1
                    ≡ count same close x extra - (if b then n else count same close x missing)))
      step true e h =
          let absent =
            count-absent x missing
              (subst (λ y. All (λ j. j.0 ≢ y) missing) ((same_iff r x).0 e) d.0) in
          let taken =
            subst
              (λ y.
                count same close y (subtract same close r (min n (count same close r extra)) extra)
                ≡ count same close y extra - min n (count same close r extra))
              ((same_iff r x).0 e) (count-subtract r (min n (count same close r extra)) extra) in
          let here = ap (λ y. count same close y extra) ((same_iff r x).0 e) in
          (omega (arith, here), omega (arith, here, absent, taken, h.1))
      step false e h =
          let other =
            count-subtract_other r x (min n (count same close r extra)) extra
              (λ i. false_is_not_true (sym e ∙ (same_iff r x).1 i)) in
          (omega (arith, other, h.0), omega (arith, other, h.1))

  total-count : (x : Row) (c : Counter Row) → count same close x c ≤ total c
  unfolding count total
  total-count x [] = omega arith
  total-count x ((k, n) ∷ c) = ground (arith, total-count x c)

  module _ (by_repr : Counter Row → Counter Row) (base other : Counter Row) where
    -- For a test that tells rows apart and a base counter with one entry for each row: two sides
    -- that compare as equal, with no row reconciled by the tolerance, have each row equally often.
    pub compare_multisets-count :
        DistinctRows base
        → (compare_multisets same close by_repr base other).equal ≡ true
        → (compare_multisets same close by_repr base other).reconciled ≡ 0
        → (x : Row) → count same close x base ≡ count same close x other
    unfolding compare_multisets
    compare_multisets-count d e r x =
        let (missing, extra) = consume_exact same close base other in
        let final = consume_close same close missing extra in
        let (no_missing, no_extra) =
          and_parts (is_empty (leftover final.0)) (is_empty (leftover final.1)) e in
        let exact = consume_exact-count x base other d in
        let loops = consume_close-total same close missing extra in
        omega (
          arith,
          is_empty-total same close (leftover final.0) no_missing,
          is_empty-total same close (leftover final.1) no_extra,
          leftover-total same close final.0,
          leftover-total same close final.1,
          loops.0,
          loops.1,
          r,
          total-count x missing,
          total-count x extra,
          exact.0,
          exact.1,
        )

  nothing_missing :
      (missing extra : Counter Row)
      → DistinctRows missing
      → ((x : Row) → count same close x missing ≤ count same close x extra)
      → total (consume_exact same close missing extra).0 ≡ 0
  unfolding count consume_exact total
  nothing_missing [] extra d h = refl
  nothing_missing ((r, n) ∷ missing) extra d h =
      let taken = min n (count same close r extra) in
      omega (
        arith,
        here (h r),
        nothing_missing missing (subtract same close r taken extra) d.1
            (λ x. step x (same r x) refl (h x)),
      )
    where
      here :
          (if same r r then n else count same close r missing) ≤ count same close r extra
          → n ≤ count same close r extra
      here g =
          subst (λ b. (if b then n else count same close r missing) ≤ count same close r extra)
            ((same_iff r r).1 refl) g

      step :
          (x : Row) (b : Bool)
          → same r x ≡ b
          → (if b then n else count same close x missing) ≤ count same close x extra
          → count same close x missing
            ≤ count same close x (subtract same close r (min n (count same close r extra)) extra)
      step x true e g =
          let absent =
            count-absent x missing
              (subst (λ y. All (λ j. j.0 ≢ y) missing) ((same_iff r x).0 e) d.0) in
          omega (arith, absent)
      step x false e g =
          let other =
            count-subtract_other r x (min n (count same close r extra)) extra
              (λ i. false_is_not_true (sym e ∙ (same_iff r x).1 i)) in
          omega (arith, other, g)

  leftover-nothing : (c : Counter Row) → total c ≡ 0 → is_empty (leftover c) ≡ true
  unfolding total
  leftover-nothing [] h = refl
  leftover-nothing ((k, n) ∷ c) h =
      let (none_here, none_there) = no_parts n (total c) h in
      rw (none_here) (leftover-nothing c none_there)
    where
      no_parts : (a b : ℕ) → a + b ≡ 0 → (a ≡ 0) × (b ≡ 0)
      no_parts a b h = (omega (arith, h), omega (arith, h))

  fewer :
      (a b : Counter Row)
      → DistinctRows a
      → ((x : Row) → count same close x a ≤ count same close x b)
      → total a ≤ total b
  fewer a b d h = omega (arith, nothing_missing a b d h, consume_exact-total same close a b)

  module _ (by_repr : Counter Row → Counter Row) (base other : Counter Row) where
    -- For a test that tells rows apart: two counters with one entry for each row, which have each
    -- row equally often, in whatever order, compare as equal and with no row reconciled, whatever
    -- the tolerance is.
    pub compare_multisets-same :
        DistinctRows base
        → DistinctRows other
        → ((x : Row) → count same close x base ≡ count same close x other)
        → ((compare_multisets same close by_repr base other).equal ≡ true)
          × ((compare_multisets same close by_repr base other).reconciled ≡ 0)
    unfolding compare_multisets
    compare_multisets-same d e h =
        let (missing, extra) = consume_exact same close base other in
        let final = consume_close same close missing extra in
        let loops = consume_close-total same close missing extra in
        let none_missing = nothing_missing base other d (λ x. omega (arith, h x)) in
        let back = fewer other base e (λ x. omega (arith, h x)) in
        let exact = consume_exact-total same close base other in
        (
          both_true (is_empty (leftover final.0)) (is_empty (leftover final.1))
              (leftover-nothing final.0 (omega (arith, loops.1, none_missing)))
              (leftover-nothing final.1
                (omega (arith, loops.0, loops.1, none_missing, back, exact))),
          omega (arith, loops.1, none_missing),
        )
