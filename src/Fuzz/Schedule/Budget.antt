-- ===== src/Fuzz/Schedule/Budget.antt =====
-- eqgen/fuzz/schedule.py: how long a round may query.
use coa.Base.{
  ℕ, List, [], ◌∷◌, subst, ap, ◌>>=◌, Bool, true, false, if◌then◌else◌, Option, none, some, ◌≡◌,
  refl, arith,
}
use mathlib.Core.Option.{some-injective}
use coa.Fuzz.Floats.{Floats, IsNumber, larger, smaller, Rounds}
use coa.Fuzz.Schedule.{
  measure_complexity, measure_loop, EquivalenceComplexity, complexity_of, RoundTimeScheduler,
  round_time_scheduler, seconds, score_of, scheduler_from_args, flat_scheduler, default_min_seconds,
}

-- the minimum that was asked for, if one was, is a number
abbrev pub NumberOrNone : (F : Floats) → Option F.Float → Type 0
NumberOrNone F none = Unit
NumberOrNone F (some x) = IsNumber F x

module _ (F : Floats) (R : Rounds F) where
  abbrev IsPart : F.Float → Type 0
  IsPart x = (F.le (F.whole 0) x ≡ true) × (F.le x (F.whole 1) ≡ true)

  abbrev AtLeast0 : F.Float → Type 0
  AtLeast0 x = F.le (F.whole 0) x ≡ true

  larger-AtLeast0 : (x y : F.Float) → AtLeast0 x → AtLeast0 y → AtLeast0 (larger F x y)
  larger-AtLeast0 x y h k = by_test (F.lt x y)
    where
      by_test : (b : Bool) → AtLeast0 (if b then y else x)
      by_test true = k
      by_test false = h

  one-IsPart : IsPart (F.whole 1)
  one-IsPart = (R.whole_le 0 1 (omega arith), R.whole_le 1 1 (omega arith))

  smaller-IsPart : (x : F.Float) → AtLeast0 x → IsPart (smaller F (F.whole 1) x)
  smaller-IsPart x h = by_test (F.lt x (F.whole 1)) refl
    where
      by_test : (b : Bool) → F.lt x (F.whole 1) ≡ b → IsPart (if b then x else F.whole 1)
      by_test true e = (h, R.lt_le x (F.whole 1) e)
      by_test false e = one-IsPart

  score_of-IsPart : (depth nodes statements : ℕ) → IsPart (score_of F depth nodes statements)
  unfolding score_of
  score_of-IsPart depth nodes statements = smaller-IsPart _ (
      larger-AtLeast0 _ _ (larger-AtLeast0 _ _ (R.ratio_nonneg depth 29) (R.ratio_nonneg nodes 79))
        (R.ratio_nonneg statements 39))

  zero-IsNumber : IsNumber F (F.whole 0)
  zero-IsNumber = R.whole_le 0 0 (omega arith)

  abbrev made : F.Float → F.Float → Bool → RoundTimeScheduler F
  made most least flat = record { max_seconds = most; min_seconds = least; flat = flat }

  -- what the constructor has checked, of numbers
  abbrev Checked : F.Float → F.Float → Type 0
  Checked most least = (F.lt (F.whole 0) least ≡ true) × (F.le least most ≡ true)

  round_time_scheduler-Checked :
      (most least : F.Float) (flat : Bool) (s : RoundTimeScheduler F)
      → IsNumber F most
      → IsNumber F least
      → round_time_scheduler F most least flat ≡ some s
      → (made most least flat ≡ s) × Checked most least
  unfolding round_time_scheduler
  round_time_scheduler-Checked most least flat s hm hl =
      by_tests (F.le most (F.whole 0)) (F.le least (F.whole 0)) (F.lt most least) refl refl
    where
      by_tests :
          (a b c : Bool)
          → F.le least (F.whole 0) ≡ b
          → F.lt most least ≡ c
          → (if a
              then none
              else if b
              then none
              else if c
              then none
              else some (made most least flat))
            ≡ some s
          → (made most least flat ≡ s) × Checked most least
      by_tests true b c eb ec h = cc
      by_tests false true c eb ec h = cc
      by_tests false false true eb ec h = cc
      by_tests false false false eb ec h = (
        some-injective (made most least flat) s h,
        (R.not_le least (F.whole 0) hl zero-IsNumber eb, R.not_lt most least hm hl ec),
      )

  default_min_seconds-IsNumber : (x : F.Float) → IsNumber F (default_min_seconds F x)
  unfolding default_min_seconds
  default_min_seconds-IsNumber x = by_test (F.lt (F.whole 3) (F.floor_quotient x 5)) refl
    where
      by_test :
          (b : Bool)
          → F.lt (F.whole 3) (F.floor_quotient x 5) ≡ b
          → IsNumber F (if b then F.floor_quotient x 5 else F.whole 3)
      by_test true e = (R.le_number _ _ (R.lt_le _ _ e)).1
      by_test false e = R.whole_le 3 3 (omega arith)

  -- the most that a budget is
  abbrev pub limit : Bool → F.Float → F.Float → F.Float
  limit schedule most least = if schedule then F.plus least (F.minus most least) else most

  abbrev Bounded : Bool → F.Float → RoundTimeScheduler F → EquivalenceComplexity F → Type 0
  Bounded schedule most s c =
      (F.lt (F.whole 0) (seconds F s (some c)) ≡ true)
      × (F.le s.min_seconds (seconds F s (some c)) ≡ true)
      × (F.le (seconds F s (some c)) (limit schedule most s.min_seconds) ≡ true)

  flat-Bounded :
      (most : F.Float) (c : EquivalenceComplexity F)
      → IsNumber F most
      → Checked most most
      → Bounded false most (made most most true) c
  unfolding seconds
  flat-Bounded most c hm h = (h.0, hm, hm)

  scaled-Bounded :
      (most least : F.Float) (c : EquivalenceComplexity F)
      → R.IsFinite most
      → IsPart c.score
      → Checked most least
      → Bounded true most (made most least false) c
  unfolding seconds
  scaled-Bounded most least c fin part h =
      let above = R.lt_le (F.whole 0) least h.0 in
      let least_finite = R.finite_between least most above h.1 fin in
      let (span_finite, span_above) = R.minus_finite least most fin above h.1 in
      let (share_above, share_below) =
        R.times_within (F.minus most least) c.score span_finite span_above part.0 part.1 in
      let more =
        R.plus_more least (F.times (F.minus most least) c.score) least_finite share_above in
      (
        R.lt_le_trans (F.whole 0) least _ h.0 more,
        more,
        R.plus_le least _ _ least_finite share_above share_below,
      )

  measure_complexity-score :
      (children : ℕ → List ℕ) (fuel root statements kinds : ℕ) (c : EquivalenceComplexity F)
      → measure_complexity children F fuel root statements kinds ≡ some c
      → IsPart c.score
  unfolding measure_complexity
  measure_complexity-score children fuel root statements kinds c =
      scored (measure_loop children fuel ((root, 1) ∷ []) [] 0 0)
    where
      scored :
          (o : Option (ℕ × ℕ))
          → (o >>= λ r. some (complexity_of F statements kinds r)) ≡ some c
          → IsPart c.score
      scored none h = cc
      scored (some (d, n)) h =
          subst IsPart (ap (λ r. r.score) (some-injective _ c h)) (score_of-IsPart d n statements)

  -- For floats that round as IEEE 754 says, a finite `--round-seconds` and a minimum that is not
  -- NaN, if one is given: with a scheduler that the command line's arguments set up, the budget of
  -- a measured tree is above zero and at least the scheduler's minimum. It is at most `--round-
  -- seconds` without `--schedule`, and with it at most the minimum plus the rounded span up to
  -- `--round-seconds`, a sum that is rounded itself.
  pub seconds_bounds :
      (children : ℕ → List ℕ) (fuel root statements kinds : ℕ) (round_seconds : F.Float)
      (minimum : Option F.Float) (schedule : Bool) (s : RoundTimeScheduler F)
      (c : EquivalenceComplexity F)
      → R.IsFinite round_seconds
      → NumberOrNone F minimum
      → scheduler_from_args F round_seconds minimum schedule ≡ some s
      → measure_complexity children F fuel root statements kinds ≡ some c
      → (F.lt (F.whole 0) (seconds F s (some c)) ≡ true)
        × (F.le s.min_seconds (seconds F s (some c)) ≡ true)
        × (F.le (seconds F s (some c)) (limit schedule round_seconds s.min_seconds) ≡ true)
  unfolding scheduler_from_args flat_scheduler
  seconds_bounds children fuel root statements kinds round_seconds minimum schedule s c fin num
        built measured =
      bounded minimum schedule num built
    where
      number : IsNumber F round_seconds
      number = R.finite_number round_seconds fin

      scaled :
          (least : F.Float)
          → IsNumber F least
          → round_time_scheduler F round_seconds least false ≡ some s
          → Bounded true round_seconds s c
      scaled least k h =
          let (e, checked) = round_time_scheduler-Checked round_seconds least false s number k h in
          subst (λ t. Bounded true round_seconds t c) e
            (scaled-Bounded round_seconds least c fin
              (measure_complexity-score children fuel root statements kinds c measured) checked)

      bounded :
          (minimum : Option F.Float) (schedule : Bool)
          → NumberOrNone F minimum
          → scheduler_from_args F round_seconds minimum schedule ≡ some s
          → Bounded schedule round_seconds s c
      bounded minimum false k h =
          let (e, checked) =
            round_time_scheduler-Checked round_seconds round_seconds true s number number h in
          subst (λ t. Bounded false round_seconds t c) e
            (flat-Bounded round_seconds c number checked)
      bounded none true k h =
          scaled (default_min_seconds F round_seconds) (default_min_seconds-IsNumber round_seconds)
            h
      bounded (some least) true k h = scaled least k h
