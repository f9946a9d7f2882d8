-- ===== src/Fuzz/Schedule/Tests.antt =====
-- eqgen/fuzz/schedule.py on a small tree: node 3 reads nodes 1 and 2, which read node 0.
use coa.Base.{ℕ, zero, suc, ◌≤◌, ◌<◌, true, false, none, some, List, [], ◌∷◌, ◌≡◌, refl, All, arith}
use coa.Fuzz.Floats.Milli.{milli, milli-Rounds, milli-IsFinite}
use coa.Fuzz.Schedule.{
  measure_complexity, measure_loop, push, complexity_of, EquivalenceComplexity, RoundTimeScheduler,
  round_time_scheduler, scheduler_from_args, default_min_seconds, seconds, score_of,
}
use coa.Fuzz.Schedule.Budget.{seconds_bounds}
use coa.Fuzz.Schedule.Measure.{measure_complexity-returns, steps_for}

abbrev shared : ℕ → List ℕ
shared zero = []
shared (suc zero) = 0 ∷ []
shared (suc (suc zero)) = 0 ∷ []
shared _ = 1 ∷ 2 ∷ []

shared-closed : (v : ℕ) → v < 4 → All (λ c. c < 4) (shared v)
shared-closed v h = ground arith

shared_measured : measure_complexity shared milli 10 3 8 2 ≡ some (complexity_of milli 8 2 (3, 4))
unfolding measure_complexity measure_loop push
shared_measured = refl

enough_steps : steps_for shared 4 ≤ 12
unfolding steps_for
enough_steps = omega arith

measure_complexity-returns_example :
    (c : EquivalenceComplexity milli) × (measure_complexity shared milli 12 3 8 2 ≡ some c)
    × (1 ≤ c.depth)
    × (c.depth ≤ c.nodes)
    × (c.nodes ≤ 4)
measure_complexity-returns_example =
    measure_complexity-returns milli shared 4 12 3 8 2 shared-closed (omega arith) enough_steps

abbrev ten_seconds : RoundTimeScheduler milli
ten_seconds = record { max_seconds = 10000; min_seconds = 3000; flat = false }

ten_built : scheduler_from_args milli 10000 none true ≡ some ten_seconds
unfolding scheduler_from_args round_time_scheduler default_min_seconds
ten_built = refl

-- 8 of 40 statements: a fifth of the span
ten_allotted : seconds milli ten_seconds (some (complexity_of milli 8 2 (3, 4))) ≡ 4400
unfolding seconds score_of
ten_allotted = refl

seconds_bounds_example :
    (milli.lt 0 (seconds milli ten_seconds (some (complexity_of milli 8 2 (3, 4)))) ≡ true)
    × (milli.le 3000 (seconds milli ten_seconds (some (complexity_of milli 8 2 (3, 4)))) ≡ true)
    × (milli.le
          (seconds milli ten_seconds (some (complexity_of milli 8 2 (3, 4))))
          (milli.plus 3000 (milli.minus 10000 3000))
        ≡ true)
seconds_bounds_example =
    seconds_bounds milli milli-Rounds shared 10 3 8 2 10000 none true ten_seconds
      (complexity_of milli 8 2 (3, 4)) (milli-IsFinite 10000) tt ten_built shared_measured

-- With `--schedule --round-seconds 2` and no minimum the constructor raises: the default minimum is
-- above the maximum.
default_minimum_refused : scheduler_from_args milli 2000 none true ≡ none
unfolding scheduler_from_args round_time_scheduler default_min_seconds
default_minimum_refused = refl
