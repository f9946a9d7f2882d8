-- ===== src/Fuzz/Outcome.antt =====
-- eqgen/fuzz/round.py and compare.py: what a round exchanges with its child process and returns, and
-- the label of a comparison.
use coa.Base.{
  ℕ, zero, suc, ◌+◌, length, Bool, false, not, if◌then◌else◌, Option, none, some, is_some, List, [],
  ◌∷◌, ◌++◌,
}
use coa.Base.Text.{Text, codes}
use coa.Base.Decimal.{str}
use coa.Fuzz.Multiset.{Counter}
use coa.Fuzz.Verdict.{
  QueryComparison, is_mismatch, is_error, is_known_issue, is_uncomparable, findings,
}
use coa.Fuzz.Objects.{ObjectComparison, object_equal}
use coa.Fuzz.Journal.{Event}
use coa.Fuzz.Floats.{Floats}
use coa.Fuzz.Schedule.{EquivalenceComplexity}

-- what the child does with a query; the text of the last two is the note about its end
pub data Reply (Row : Type 0) : Type 0 where
  answered : QueryComparison Row → Reply Row
  hung died : Text → Reply Row

-- what the child sends once it has built both databases, or failed to
pub data Setup (Row : Type 0) : Type 0 where
  ready : ObjectComparison Row → Setup Row
  setup_failed : Text → Bool → Setup Row
  setup_hung setup_died : Text → Setup Row

pub record Child (Row : Type 0) : Type 0 where
  pub setup : Setup Row
  pub reply : ℕ → Text → Reply Row

-- Python's `repr` of a row or `None` and of a tuple of types, and the text of `schedule_note`
pub record Printing (F : Floats) (Row : Type 0) : Type 0 where
  pub sample : Option Row → Text
  pub types : List Text → Text
  pub schedule_note : EquivalenceComplexity F → F.Float → Text

-- what generation gave: an error, or the statements, the measured tree and what is logged of it
pub data Generated (F : Floats) : Type 0 where
  not_generated : Text → Generated F
  generated : List Text → EquivalenceComplexity F → List Event → Generated F

pub record RoundOutcome (F : Floats) (Row : Type 0) : Type 0 where
  pub results : List (QueryComparison Row)
  pub equivalent_statements : List Text
  pub object_comparison : Option (ObjectComparison Row)
  pub crashed_query : Option Text
  pub crash_note : Option Text
  pub setup_crash : Option Text
  pub setup_error : Option Text
  pub setup_known_issue : Bool
  pub exposed_names : List Text
  pub round_budget_seconds : Option F.Float
  pub complexity : Option (EquivalenceComplexity F)
  pub stopped_for_budget : Bool
  pub events : List Event

-- the variables that the query loop leaves
pub record Loop (Row : Type 0) : Type 0 where
  pub done : List (QueryComparison Row)
  pub crash : Option (Text × Text)
  pub stopped : Bool
  pub told : List Event

abbrev text_or : Option Text → Text
text_or none = codes "None"
text_or (some t) = t

module _ {Row : Type 0} where
  abbrev first_row : Counter Row → Option Row
  first_row [] = none
  first_row (k ∷ ks) = some k.0

  -- `QueryComparison.verdict`
  unfoldable pub verdict : (Option Row → Text) → QueryComparison Row → Text
  unfolding is_mismatch is_error is_known_issue is_uncomparable str
  verdict sample r =
      if is_mismatch r
      then codes "MISMATCH: "
        ++ str (length r.only_in_base)
        ++ codes " distinct only in base, "
        ++ str (length r.only_in_equivalent)
        ++ codes " distinct only in equivalent; e.g. base="
        ++ sample (first_row r.only_in_base)
        ++ codes " equiv="
        ++ sample (first_row r.only_in_equivalent)
      else if is_error r
      then codes "ERROR (equivalent): " ++ text_or r.equivalent_error
      else if is_known_issue r
      then codes "known-issue (" ++ text_or r.equivalent_known_issue ++ codes ")"
      else if is_uncomparable r
      then codes "uncomparable (base rejected it): " ++ text_or r.base_error
      else (elim r.reconciled [
        | zero ↦ codes "PASS"
        | suc n ↦ codes "PASS (" ++ str (suc n) ++ codes " row(s) reconciled by float tolerance)"
      ])

module _ {F : Floats} {Row : Type 0} where
  -- `RoundOutcome.object_diverged`
  unfoldable pub object_diverged : RoundOutcome F Row → Bool
  unfolding object_equal
  object_diverged o = elim o.object_comparison [ none ↦ false | some c ↦ not (object_equal c) ]

  -- `RoundOutcome.queries_attempted`
  unfoldable pub queries_attempted : RoundOutcome F Row → ℕ
  queries_attempted o = length o.results + (if is_some o.crashed_query then 1 else 0)

  -- `RoundOutcome.findings`
  unfoldable pub round_findings : RoundOutcome F Row → List (QueryComparison Row)
  unfolding findings
  round_findings o = findings o.results
