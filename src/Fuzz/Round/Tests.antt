-- ===== src/Fuzz/Round/Tests.antt =====
-- eqgen/fuzz/round.py on a child that answers, and on one that dies at the second query.
use coa.Base.{
  ℕ, zero, suc, ◌+◌, ◌*◌, ◌≤◌, ◌⊎◌, true, false, none, some, List, [], ◌∷◌, ◌≡◌, refl, sym, subst,
  ◌↔◌, map, take, All,
}
use coa.Base.Text.{Text, codes, join}
use coa.Base.Strings.{
  is_break, is_space, splitlines, rstrip_by, starts_with, ends_with, is_blank, no_break-IsPlain,
  IsPlain,
}
use coa.Fuzz.Multiset.{Counter, MultisetDiff}
use coa.Fuzz.Verdict.{QueryComparison, is_mismatch, is_error, is_known_issue, is_uncomparable}
use coa.Fuzz.Objects.{
  Side, ObjectComparison, object_equal, object_verdict, types_agree, texts_eq, compare_env,
}
use coa.Fuzz.Objects.Gate.{Agree, compare_env-equal}
use coa.Fuzz.Journal.{began, ended, recorded, without_end, parse_journal, queries_from_journal}
use coa.Fuzz.Journal.Clean.{IsClean, IsReplayable}
use coa.Fuzz.Journal.RoundTrip.{journal}
use coa.Fuzz.Schedule.{RoundTimeScheduler, complexity_of, seconds}
use coa.Fuzz.Floats.Milli.{milli}
use coa.Fuzz.Outcome.{
  Reply, answered, died, Child, ready, Printing, Generated, generated, RoundOutcome, verdict,
  queries_attempted,
}
use coa.Fuzz.Round.{run_round, receive_setup, query_loop, opening}
use coa.Fuzz.Round.Replay.{run_round-replay}
use coa.Fuzz.Round.Progress.{Answers, run_round-all, run_round_deadline}
use coa.Fuzz.Round.Crash.{run_round-crash, LastEntry}

abbrev same_rows : MultisetDiff ℕ
same_rows = record { equal = true; only_in_base = []; only_in_other = []; reconciled = 0 }

abbrev same_objects : ObjectComparison ℕ
same_objects = record { rows = same_rows; base_types = []; equivalent_types = [] }

abbrev passed : Text → QueryComparison ℕ
passed q = record {
  query = q;
  equal = true;
  only_in_base = [];
  only_in_equivalent = [];
  base_error = none;
  equivalent_error = none;
  equivalent_known_issue = none;
  reconciled = 0;
}

abbrev steady_child : Child ℕ
steady_child = record { setup = ready same_objects; reply = λ i q. answered (passed q) }

abbrev mortal : ℕ → Text → Reply ℕ
mortal zero q = answered (passed q)
mortal (suc i) q = died (codes "killed by SIGSEGV")

abbrev mortal_child : Child ℕ
mortal_child = record { setup = ready same_objects; reply = mortal }

abbrev printing : Printing milli ℕ
printing = record {
  sample = λ r. codes "row";
  types = λ ts. codes "()";
  schedule_note = λ c b. codes "schedule";
}

abbrev tree : Generated milli
tree = generated (codes "CREATE VIEW t AS SELECT 1" ∷ []) (complexity_of milli 1 1 (1, 1)) []

abbrev workload : List Text
workload = codes "SELECT 1" ∷ codes "SELECT 2" ∷ codes "SELECT 3" ∷ []

abbrev mortal_round : RoundOutcome milli ℕ
mortal_round = run_round printing mortal_child (λ i. i) true none (codes "t" ∷ []) tree workload

steady-Answers : Answers steady_child
steady-Answers = record {
  comparison = same_objects;
  built = refl;
  replies = λ i q. (passed q, refl, refl);
}

run_round-all_example :
    (let o = run_round printing steady_child (λ i. i) true none (codes "t" ∷ []) tree workload in
      (map (λ r. r.query) o.results ≡ workload) × (o.crashed_query ≡ none))
run_round-all_example =
    run_round-all printing steady_child (λ i. i) true (codes "t" ∷ [])
      (codes "CREATE VIEW t AS SELECT 1" ∷ []) (complexity_of milli 1 1 (1, 1)) [] workload
      steady-Answers

mortal_crashed : mortal_round.crashed_query ≡ some (codes "SELECT 2")
unfolding run_round receive_setup query_loop
mortal_crashed = refl

mortal_attempted : queries_attempted mortal_round ≡ 2
unfolding run_round receive_setup query_loop queries_attempted
mortal_attempted = refl

mortal_events :
    mortal_round.events
    ≡ recorded (codes "equivalence DDL") (codes "CREATE VIEW t AS SELECT 1;" ∷ [])
      ∷ ended (codes "equivalence check: OK (rows and declared types agree)")
      ∷ began (codes "SELECT 1")
      ∷ ended (codes "PASS")
      ∷ began (codes "SELECT 2")
      ∷ ended (codes "CRASH: engine died (killed by SIGSEGV)")
      ∷ []
unfolding run_round receive_setup query_loop opening object_verdict object_equal types_agree
    texts_eq verdict is_mismatch is_error is_known_issue is_uncomparable
mortal_events = refl

IsPlain-ddl : IsPlain (codes "equivalence DDL")
unfolding is_break
IsPlain-ddl = no_break-IsPlain (codes "equivalence DDL") refl

IsPlain-check : IsPlain (codes "equivalence check: OK (rows and declared types agree)")
unfolding is_break
IsPlain-check =
    no_break-IsPlain (codes "equivalence check: OK (rows and declared types agree)") refl

IsPlain-pass : IsPlain (codes "PASS")
unfolding is_break
IsPlain-pass = no_break-IsPlain (codes "PASS") refl

IsPlain-crash : IsPlain (codes "CRASH: engine died (killed by SIGSEGV)")
unfolding is_break
IsPlain-crash = no_break-IsPlain (codes "CRASH: engine died (killed by SIGSEGV)") refl

replayable : IsReplayable (codes "SELECT 1") × IsReplayable (codes "SELECT 2")
unfolding splitlines join without_end rstrip_by is_space is_break starts_with ends_with is_blank
replayable = ((refl, ((refl, refl), refl)), (refl, ((refl, refl), refl)))

mortal-IsClean : All IsClean mortal_round.events
mortal-IsClean = subst (All IsClean) (sym mortal_events) (
  IsPlain-ddl,
  (IsPlain-check, (replayable.0, (IsPlain-pass, (replayable.1, (IsPlain-crash, tt))))),
)

run_round-replay_example :
    queries_from_journal (journal [] mortal_round.events)
    ≡ map without_end (take (queries_attempted mortal_round) workload)
run_round-replay_example =
    run_round-replay printing mortal_child (λ i. i) [] true none (codes "t" ∷ []) tree workload refl
      tt mortal-IsClean

run_round-crash_example :
    LastEntry (parse_journal (journal [] mortal_round.events)) (codes "SELECT 2")
run_round-crash_example =
    run_round-crash printing mortal_child (λ i. i) [] true none (codes "t" ∷ []) tree workload
      (codes "SELECT 2") tt mortal-IsClean mortal_crashed

abbrev two_seconds : RoundTimeScheduler milli
two_seconds = record { max_seconds = 2000; min_seconds = 2000; flat = true }

-- a clock that moves on by a second at each reading
abbrev ticking : ℕ → ℕ
ticking i = i * 1000

abbrev timed_round : RoundOutcome milli ℕ
timed_round =
    run_round printing steady_child ticking true (some two_seconds) (codes "t" ∷ []) tree workload

-- the third reading is the deadline, so the last two queries are not begun
timed_attempted : (queries_attempted timed_round ≡ 1) × (timed_round.stopped_for_budget ≡ true)
unfolding run_round receive_setup query_loop queries_attempted seconds
timed_attempted = (refl, refl)

run_round_deadline_example :
    (let deadline = seconds milli two_seconds (some (complexity_of milli 1 1 (1, 1))) in
      ((j : ℕ)
        → (queries_attempted timed_round ≤ j)
          ⊎ (milli.le (ticking 0 + deadline) (ticking (suc j)) ≡ false))
      × ((timed_round.stopped_for_budget ≡ false)
          ⊎ (milli.le (ticking 0 + deadline) (ticking (suc (queries_attempted timed_round)))
              ≡ true)))
run_round_deadline_example =
    run_round_deadline printing steady_child ticking true two_seconds (codes "t" ∷ [])
      (codes "CREATE VIEW t AS SELECT 1" ∷ []) (complexity_of milli 1 1 (1, 1)) [] workload

abbrev one_row : Side ℕ
one_row = record {
  multiset = λ name columns. (7, 1) ∷ [];
  column_types = λ name columns. codes "INTEGER" ∷ [];
}

abbrev same_counters : Counter ℕ → Counter ℕ → MultisetDiff ℕ
same_counters base other = same_rows

compare_env-equal_example :
    (object_equal (
        compare_env same_counters one_row one_row
          (codes "t")
          (codes "c" ∷ [])
          (codes "t0" ∷ codes "t1" ∷ []))
      ≡ true)
    ↔ All (Agree same_counters one_row one_row (codes "c" ∷ [])) (codes "t0" ∷ codes "t1" ∷ [])
compare_env-equal_example =
    compare_env-equal same_counters one_row one_row (codes "t") (codes "c" ∷ [])
      (codes "t0" ∷ codes "t1" ∷ [])
