-- ===== src/Fuzz/Round.antt =====
-- eqgen/fuzz/round.py: one round as its parent process runs it. The child process is a parameter:
-- what it answers once both databases are built, and what it answers to each query. The clock
-- is the stream of its readings. What a journal would be told is a list
-- of events, which the result holds whether there is a journal or not.
pub mod Rule
pub mod Replay
pub mod Progress
pub mod Crash
mod Tests
use coa.Base.{
  ℕ, zero, suc, ◌+◌, ◌≤◌, leb, length, Bool, true, false, ◌||◌, if◌then◌else◌, Option, none, some,
  is_some, List, [], ◌∷◌, ◌++◌, map,
}
use coa.Base.Text.{Text, codes}
use coa.Base.Decimal.{str}
use coa.Fuzz.Multiset.{Counter}
use coa.Fuzz.Verdict.{
  QueryComparison, is_mismatch, is_error, is_known_issue, is_uncomparable, is_reportable, findings,
}
use coa.Fuzz.Objects.{ObjectComparison, object_equal, object_verdict}
use coa.Fuzz.Journal.{Event, began, ended, recorded}
use coa.Fuzz.Outcome.{
  Reply, answered, hung, died, Setup, ready, setup_failed, setup_hung, setup_died, Child, Printing,
  Generated, not_generated, generated, RoundOutcome, Loop, verdict,
}
use coa.Fuzz.Floats.{Floats}
use coa.Fuzz.Schedule.{EquivalenceComplexity, RoundTimeScheduler, seconds}

-- `deadline is not None and clock() >= deadline`
abbrev pub is_past : (F : Floats) → Option F.Float → F.Float → Bool
is_past F none now = false
is_past F (some deadline) now = F.le deadline now

-- `scheduler.seconds(complexity)`, and the deadline that it sets
abbrev pub budget_of :
    (F : Floats) → Option (RoundTimeScheduler F) → EquivalenceComplexity F → Option F.Float
budget_of F none c = none
budget_of F (some s) c = some (seconds F s (some c))

abbrev pub deadline_of : (F : Floats) → (ℕ → F.Float) → Option F.Float → Option F.Float
deadline_of F clock none = none
deadline_of F clock (some budget) = some (F.plus (clock 0) budget)

abbrev pub crashed_on : Option (Text × Text) → Option Text
crashed_on none = none
crashed_on (some k) = some k.0

abbrev pub crash_text : Option (Text × Text) → Option Text
crash_text none = none
crash_text (some k) = some k.1

module _ {Row : Type 0} where
  abbrev pub after : Event → Event → QueryComparison Row → Loop Row → Loop Row
  after b e r rest = record rest { done = r ∷ rest.done; told = b ∷ e ∷ rest.told }

  abbrev pub crashed : Text → Text → Text → Loop Row
  crashed q note how = record {
    done = [];
    crash = some (q, note);
    stopped = false;
    told = began q ∷ ended (how ++ note ++ codes ")") ∷ [];
  }

  abbrev pub ended_loop : Bool → Loop Row
  ended_loop stopped = record { done = []; crash = none; stopped = stopped; told = [] }

  module _ {F : Floats} (print : Printing F Row) (child : Child Row) (clock : ℕ → F.Float)
      (deadline : Option F.Float) where
    -- The query loop. The reading before query `i` is `clock (suc i)`.
    unfoldable pub query_loop : ℕ → List Text → Loop Row
    unfolding verdict
    query_loop i [] = ended_loop (is_past F deadline (clock (suc i)))
    query_loop i (q ∷ qs) =
        let rest = query_loop (suc i) qs in
        if is_past F deadline (clock (suc i)) then ended_loop true else (elim (child.reply i q) [
          | answered r ↦ after (began q) (ended (verdict print.sample r)) r rest
          | hung note ↦ crashed q note (codes "CRASH: engine hung (")
          | died note ↦ crashed q note (codes "CRASH: engine died (")
        ])

module _ {F : Floats} {Row : Type 0} where
  abbrev pub no_outcome : List Text → List Event → RoundOutcome F Row
  no_outcome names events = record {
    results = [];
    equivalent_statements = [];
    object_comparison = none;
    crashed_query = none;
    crash_note = none;
    setup_crash = none;
    setup_error = none;
    setup_known_issue = false;
    exposed_names = names;
    round_budget_seconds = none;
    complexity = none;
    stopped_for_budget = false;
    events = events;
  }

  abbrev pub setup_crashed :
      List Text
      → List Text
      → Option (EquivalenceComplexity F)
      → Text
      → List Event
      → RoundOutcome F Row
  setup_crashed names statements complexity note events = record (no_outcome names events) {
    equivalent_statements = statements;
    setup_crash = some note;
    crash_note = some (codes "while building the equivalence: " ++ note);
    complexity = complexity;
  }

  abbrev pub budget_note : Printing F Row → EquivalenceComplexity F → Option F.Float → List Event
  budget_note print c none = []
  budget_note print c (some budget) = ended (print.schedule_note c budget) ∷ []

  -- what is told before the first query
  unfoldable pub opening :
      Printing F Row → ObjectComparison Row → EquivalenceComplexity F → Option F.Float → List Event
  unfolding object_verdict
  opening print c measured budget =
      ended (codes "equivalence check: " ++ object_verdict print.types c)
      ∷ budget_note print measured budget

  -- the query phase, from the comparison of the objects
  abbrev pub queried :
      List Text
      → List Text
      → Option (EquivalenceComplexity F)
      → ObjectComparison Row
      → Option F.Float
      → List Event
      → Loop Row
      → RoundOutcome F Row
  queried names statements complexity c budget before loop =
      record (no_outcome names (before ++ loop.told)) {
        results = loop.done;
        equivalent_statements = statements;
        object_comparison = some c;
        crashed_query = crashed_on loop.crash;
        crash_note = crash_text loop.crash;
        round_budget_seconds = budget;
        complexity = complexity;
        stopped_for_budget = loop.stopped;
      }

  module _ (print : Printing F Row) (child : Child Row) (clock : ℕ → F.Float) where
    -- what `run_round` makes of the child's first message
    unfoldable pub receive_setup :
        Setup Row
        → Option (RoundTimeScheduler F)
        → List Text
        → List Text
        → EquivalenceComplexity F
        → Option (EquivalenceComplexity F)
        → List Event
        → List Text
        → RoundOutcome F Row
    unfolding query_loop opening
    receive_setup (setup_hung note) scheduler names statements measured complexity built queries =
        let told =
          codes "CRASH: engine hung while building the equivalence (" ++ note ++ codes ")" in
        setup_crashed names statements complexity note (built ++ ended told ∷ [])
    receive_setup (setup_died note) scheduler names statements measured complexity built queries =
        let told =
          codes "CRASH: engine died while building the equivalence (" ++ note ++ codes ")" in
        setup_crashed names statements complexity note (built ++ ended told ∷ [])
    receive_setup (setup_failed error known) scheduler names statements measured complexity built
          queries =
        record (no_outcome names (built ++ ended (codes "WOULD NOT BUILD: " ++ error) ∷ [])) {
          equivalent_statements = statements;
          setup_error = some error;
          setup_known_issue = known;
          complexity = complexity;
        }
    receive_setup (ready c) scheduler names statements measured complexity built queries =
        let budget = budget_of F scheduler measured in
        queried names statements complexity c budget (built ++ opening print c measured budget)
          (query_loop print child clock (deadline_of F clock budget) 0 queries)

    -- `run_round`; the Boolean is whether there is a journal
    unfoldable pub run_round :
        Bool
        → Option (RoundTimeScheduler F)
        → List Text
        → Generated F
        → List Text
        → RoundOutcome F Row
    unfolding receive_setup
    run_round has_journal scheduler names (not_generated error) queries =
        record (no_outcome names (ended (codes "NOT GENERATED: " ++ error) ∷ [])) {
          setup_error = some error;
        }
    run_round has_journal scheduler names (generated statements measured shape) queries =
        let complexity = if has_journal || is_some scheduler then some measured else none in
        let ddl = recorded (codes "equivalence DDL") (map (λ sql. sql ++ codes ";") statements) in
        receive_setup child.setup scheduler names statements measured complexity (shape ++ ddl ∷ [])
          queries
