-- ===== src/Fuzz/Schedule.antt =====
-- eqgen/fuzz/schedule.py: how complex an object tree is, and the seconds that its queries get. A
-- node is known by its `id`, a natural number, and `children` gives the ids of its children.
-- Scores and seconds are floats, of which only the operations are known.
pub mod Budget
pub mod Measure
mod Tests
use coa.Base.{
  ℕ, zero, suc, ◌+◌, max, ◌==◌, Bool, true, false, if◌then◌else◌, Option, none, some, List, [], ◌∷◌,
  any, ◌>>=◌,
}
use coa.Fuzz.Floats.{Floats, larger, smaller}

-- `_DEPTH_CAP`, `_NODE_CAP`, `_STMT_CAP`
abbrev pub depth_cap : ℕ
depth_cap = 30

abbrev pub node_cap : ℕ
node_cap = 80

abbrev pub stmt_cap : ℕ
stmt_cap = 40

pub record EquivalenceComplexity (F : Floats) : Type 0 where
  pub depth : ℕ
  pub nodes : ℕ
  pub statements : ℕ
  pub builder_kinds : ℕ
  pub score : F.Float

module _ (F : Floats) where
  -- `score = min(1.0, max(parts))`
  unfoldable pub score_of : ℕ → ℕ → ℕ → F.Float
  score_of depth nodes statements = smaller F (F.whole 1) (
      larger F (larger F (F.ratio depth depth_cap) (F.ratio nodes node_cap))
        (F.ratio statements stmt_cap))

  -- from the depth and the number of nodes
  abbrev pub complexity_of : ℕ → ℕ → ℕ × ℕ → EquivalenceComplexity F
  complexity_of statements builder_kinds measured = record {
    depth = measured.0;
    nodes = measured.1;
    statements = statements;
    builder_kinds = builder_kinds;
    score = score_of measured.0 measured.1 statements;
  }

abbrev pub contains : ℕ → List ℕ → Bool
contains v seen = any (λ x. x == v) seen

module _ (children : ℕ → List ℕ) where
  -- `stack.extend((child, level + 1) for child in node.children())`; the top of the stack is first
  unfoldable pub push : ℕ → List ℕ → List (ℕ × ℕ) → List (ℕ × ℕ)
  push level [] stack = stack
  push level (c ∷ cs) stack = push level cs ((c, level + 1) ∷ stack)

  -- The loop of `measure_complexity`, with its stack, `seen`, `depth` and `nodes`. `none` means that
  -- the fuel ran out.
  unfoldable pub measure_loop : ℕ → List (ℕ × ℕ) → List ℕ → ℕ → ℕ → Option (ℕ × ℕ)
  unfolding push
  measure_loop fuel [] seen depth nodes = some (depth, nodes)
  measure_loop zero ((node, level) ∷ stack) seen depth nodes = none
  measure_loop (suc fuel) ((node, level) ∷ stack) seen depth nodes =
      let skipped = measure_loop fuel stack seen depth nodes in
      let visited =
        measure_loop fuel (push level (children node) stack) (node ∷ seen) (max depth level)
          (nodes + 1) in
      if contains node seen then skipped else visited

  -- `measure_complexity`; `builder_kinds` is the number of builders used
  unfoldable pub measure_complexity :
      (F : Floats) → ℕ → ℕ → ℕ → ℕ → Option (EquivalenceComplexity F)
  unfolding measure_loop score_of
  measure_complexity F fuel root statements builder_kinds = do
    measured ← measure_loop fuel ((root, 1) ∷ []) [] 0 0
    some (complexity_of F statements builder_kinds measured)

pub record RoundTimeScheduler (F : Floats) : Type 0 where
  pub max_seconds : F.Float
  pub min_seconds : F.Float
  pub flat : Bool

module _ (F : Floats) where
  -- The constructor: `none` is the `ValueError` of `__post_init__`. No test is true of NaN.
  unfoldable pub round_time_scheduler : F.Float → F.Float → Bool → Option (RoundTimeScheduler F)
  round_time_scheduler max_seconds min_seconds flat =
      if F.le max_seconds (F.whole 0)
      then none
      else if F.le min_seconds (F.whole 0)
      then none
      else if F.lt max_seconds min_seconds
      then none
      else some (record { max_seconds = max_seconds; min_seconds = min_seconds; flat = flat })

  -- `RoundTimeScheduler.seconds`
  unfoldable pub seconds : RoundTimeScheduler F → Option (EquivalenceComplexity F) → F.Float
  seconds s none = s.max_seconds
  seconds s (some complexity) =
      if s.flat
      then s.max_seconds
      else F.plus s.min_seconds (F.times (F.minus s.max_seconds s.min_seconds) complexity.score)

  -- `default_min_seconds`
  unfoldable pub default_min_seconds : F.Float → F.Float
  default_min_seconds max_seconds = larger F (F.whole 3) (F.floor_quotient max_seconds 5)

  unfoldable pub flat_scheduler : F.Float → Option (RoundTimeScheduler F)
  unfolding round_time_scheduler
  flat_scheduler seconds = round_time_scheduler seconds seconds true

  -- `scheduler_from_args` of eqgen/fuzz/cli.py
  unfoldable pub scheduler_from_args :
      F.Float → Option F.Float → Bool → Option (RoundTimeScheduler F)
  unfolding flat_scheduler round_time_scheduler default_min_seconds
  scheduler_from_args round_seconds min_round_seconds false = flat_scheduler round_seconds
  scheduler_from_args round_seconds none true =
      round_time_scheduler round_seconds (default_min_seconds round_seconds) false
  scheduler_from_args round_seconds (some minimum) true =
      round_time_scheduler round_seconds minimum false
