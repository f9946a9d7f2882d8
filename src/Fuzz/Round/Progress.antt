-- ===== src/Fuzz/Round/Progress.antt =====
-- eqgen/fuzz/round.py: every query is compared if nothing stops a round, and a scheduler stops it by
-- the readings of the clock.
use coa.Base.{
  ℕ, zero, suc, ◌+◌, ◌<◌, ◌≤◌, ltb, ◌⊎◌, inl, inr, Bool-cases, Bool, true, false, if◌then◌else◌,
  Option, none, some, is_some, List, ◌∷◌, ◌≡◌, ◌≢◌, refl, sym, subst, ap, ◌∙◌, map, length, arith,
}
use native.Mathlib.Nat.{zero-add}
use coa.Base.Text.{Text}
use coa.Fuzz.Verdict.{QueryComparison}
use coa.Fuzz.Journal.{Event, began, ended}
use coa.Fuzz.Objects.{ObjectComparison}
use coa.Fuzz.Schedule.{RoundTimeScheduler, EquivalenceComplexity, seconds}
use coa.Fuzz.Outcome.{
  Reply, answered, Child, Setup, ready, setup_failed, setup_hung, setup_died, Printing, generated,
  RoundOutcome, Loop, queries_attempted, verdict,
}
use coa.Fuzz.Round.{query_loop, after, crashed, run_round, receive_setup, crashed_on}
use coa.Fuzz.Round.Rule.{loop_rule}
use coa.Fuzz.Floats.{Floats}
use coa.Fuzz.Round.Replay.{attempts, is_some-crashed_on}

-- a child that has built both databases and answers each query with its comparison
pub record Answers {Row : Type 0} (child : Child Row) : Type 0 where
  pub comparison : ObjectComparison Row
  pub built : child.setup ≡ ready comparison
  pub replies :
      (i : ℕ) (q : Text)
      → (r : QueryComparison Row) × (child.reply i q ≡ answered r) × (r.query ≡ q)

answered_inj : {Row : Type 0} (r s : QueryComparison Row) → answered r ≡ answered s → r ≡ s
answered_inj r s h = cc

module _ {F : Floats} {Row : Type 0} (print : Printing F Row) (child : Child Row)
    (clock : ℕ → F.Float) where
  loop-all :
      Answers child
      → (i : ℕ) (qs : List Text)
      → (let loop = query_loop print child clock none i qs in
          (map (λ r. r.query) loop.done ≡ qs) × (loop.crash ≡ none))
  loop-all ok =
      loop_rule print child clock none
        (λ i qs loop. (map (λ r. r.query) loop.done ≡ qs) × (loop.crash ≡ none)) (λ i. (refl, refl))
        (λ i q qs late. absurd (not_late late)) answer crash
    where
      not_late : false ≡ true → ⊥
      not_late h = cc

      answer :
          (i : ℕ) (q : Text) (qs : List Text) (r : QueryComparison Row) (rest : Loop Row)
          → false ≡ false
          → child.reply i q ≡ answered r
          → (map (λ r. r.query) rest.done ≡ qs) × (rest.crash ≡ none)
          → (r.query ∷ map (λ r. r.query) rest.done ≡ q ∷ qs) × (rest.crash ≡ none)
      answer i q qs r rest early e ih =
          let (s, f, g) = ok.replies i q in
          (λ k. ((ap (λ t. t.query) (answered_inj r s (sym e ∙ f)) ∙ g) k) ∷ ih.0 k, ih.1)

      crash :
          (i : ℕ) (q : Text) (qs : List Text) (reply : Reply Row) (note how : Text)
          → false ≡ false
          → child.reply i q ≡ reply
          → ((r : QueryComparison Row) → reply ≢ answered r)
          → (map (λ r. r.query) (crashed {Row = Row} q note how).done ≡ q ∷ qs)
            × ((crashed {Row = Row} q note how).crash ≡ none)
      crash i q qs reply note how early e other =
          let (s, f, g) = ok.replies i q in absurd (other s (sym e ∙ f))

  -- Where the child builds both databases and answers each query with its comparison, a round with
  -- no scheduler compares every query, in order, and reports no crash.
  pub run_round-all :
      (has_journal : Bool) (names statements : List Text) (measured : EquivalenceComplexity F)
      (shape : List Event) (queries : List Text)
      → Answers child
      → (let o =
            run_round print child clock has_journal none names
              (generated statements measured shape)
              queries in
          (map (λ r. r.query) o.results ≡ queries) × (o.crashed_query ≡ none))
  unfolding run_round receive_setup
  run_round-all has_journal names statements measured shape queries ok =
      let (compared, whole) = loop-all ok 0 queries in rw (ok.built) (compared, ap crashed_on whole)

  -- What the readings before the queries of a loop say: those before the attempted ones are not past
  -- the deadline, and where the loop stopped, the one after them is.
  abbrev KeepsDeadline : F.Float → ℕ → Loop Row → Type 0
  KeepsDeadline d i loop =
      ((j : ℕ) → j < attempts loop → F.le d (clock (suc (i + j))) ≡ false)
      × (loop.stopped ≡ true → F.le d (clock (suc (i + attempts loop))) ≡ true)

  at_start :
      (b : Bool) (d : F.Float) (i : ℕ)
      → F.le d (clock (suc i)) ≡ b
      → F.le d (clock (suc (i + 0))) ≡ b
  at_start b d i h = subst (λ k. F.le d (clock (suc k)) ≡ b) (add_zero i) h
    where
      add_zero : (i : ℕ) → i ≡ i + 0
      add_zero i = omega arith

  -- one query more, before a loop
  answered-KeepsDeadline :
      (d : F.Float) (i : ℕ) (b e : Event) (r : QueryComparison Row) (rest : Loop Row)
      → F.le d (clock (suc i)) ≡ false
      → KeepsDeadline d (suc i) rest
      → KeepsDeadline d i (after b e r rest)
  answered-KeepsDeadline d i b e r rest early ih = (
    within,
    λ h.
        subst (λ k. F.le d (clock (suc k)) ≡ true)
          (one_more i (length rest.done) (if is_some rest.crash then 1 else 0)) (ih.1 h),
  )
    where
      one_more : (i m n : ℕ) → suc i + (m + n) ≡ i + (suc m + n)
      one_more i m n = omega arith

      shift : (i m : ℕ) → suc i + m ≡ i + suc m
      shift i m = omega arith

      within :
          (j : ℕ)
          → j < suc (length rest.done) + (if is_some rest.crash then 1 else 0)
          → F.le d (clock (suc (i + j))) ≡ false
      within zero h = at_start false d i early
      within (suc j) h =
          subst (λ k. F.le d (clock (suc k)) ≡ false) (shift i j) (ih.0 j (omega arith))

  loop-KeepsDeadline :
      (d : F.Float) (i : ℕ) (qs : List Text)
      → KeepsDeadline d i (query_loop print child clock (some d) i qs)
  loop-KeepsDeadline d =
      loop_rule print child clock (some d) (λ i qs loop. KeepsDeadline d i loop)
        (λ i. ((λ j h. absurd (omega arith)), at_start true d i))
        (λ i q qs late. ((λ j h. absurd (omega arith)), λ h. at_start true d i late))
        (λ i q qs r rest early e ih.
          answered-KeepsDeadline d i (began q) (ended (verdict print.sample r)) r rest early ih)
        (λ i q qs reply note how early e other. (first i early, λ h. cc))
    where
      first :
          (i : ℕ)
          → F.le d (clock (suc i)) ≡ false
          → (j : ℕ) → j < 1
          → F.le d (clock (suc (i + j))) ≡ false
      first i early zero h = at_start false d i early
      first i early (suc j) h = absurd (omega arith)

  -- a round that attempts queries up to a deadline, and stops there
  abbrev InTime : F.Float → RoundOutcome F Row → Type 0
  InTime deadline o =
      ((j : ℕ) → j < queries_attempted o → F.le deadline (clock (suc j)) ≡ false)
      × (o.stopped_for_budget ≡ true → F.le deadline (clock (suc (queries_attempted o))) ≡ true)

  receive_setup-InTime :
      (setup : Setup Row) (s : RoundTimeScheduler F) (names statements : List Text)
      (measured : EquivalenceComplexity F) (complexity : Option (EquivalenceComplexity F))
      (built : List Event) (queries : List Text)
      → InTime (F.plus (clock 0) (seconds F s (some measured))) (
          receive_setup print child clock setup
            (some s)
            names
            statements
            measured
            complexity
            built
            queries)
  unfolding receive_setup queries_attempted
  receive_setup-InTime (setup_hung note) s names statements measured complexity built queries =
      (λ j h. absurd (omega arith), λ h. cc)
  receive_setup-InTime (setup_died note) s names statements measured complexity built queries =
      (λ j h. absurd (omega arith), λ h. cc)
  receive_setup-InTime (setup_failed error known) s names statements measured complexity built
        queries =
      (λ j h. absurd (omega arith), λ h. cc)
  receive_setup-InTime (ready c) s names statements measured complexity built queries =
      let d = F.plus (clock 0) (seconds F s (some measured)) in
      let loop = query_loop print child clock (some d) 0 queries in
      let (within, over) = loop-KeepsDeadline d 0 queries in
      let same = attempts_same loop in
      (
        λ j h.
            subst (λ k. F.le d (clock (suc k)) ≡ false) (zero-add j)
              (within j (subst (λ n. j < n) same h)),
        λ h.
            subst (λ k. F.le d (clock (suc k)) ≡ true) (zero-add (attempts loop) ∙ sym same)
              (over h),
      )
    where
      attempts_same :
          (loop : Loop Row)
          → length loop.done + (if is_some (crashed_on loop.crash) then 1 else 0) ≡ attempts loop
      attempts_same loop =
          ap (λ b. length loop.done + (if b then 1 else 0)) (is_some-crashed_on loop.crash)

  -- With a scheduler, let the deadline be the first reading of the clock plus the scheduler's
  -- seconds for the tree, as floats are added. In whatever way the clock moves, the reading taken
  -- before each query that a round attempts is pulled from its source is not at or past the
  -- deadline; and where the round says that it stopped for its budget, the reading taken after the
  -- last attempted query is. How long the pull itself takes is not bounded.
  pub run_round_deadline :
      (has_journal : Bool) (s : RoundTimeScheduler F) (names : List Text) (statements : List Text)
      (measured : EquivalenceComplexity F) (shape : List Event) (queries : List Text)
      → (let o =
            run_round print child clock has_journal
              (some s)
              names
              (generated statements measured shape)
              queries in
          let deadline = F.plus (clock 0) (seconds F s (some measured)) in
          ((j : ℕ) → (queries_attempted o ≤ j) ⊎ (F.le deadline (clock (suc j)) ≡ false))
          × ((o.stopped_for_budget ≡ false)
              ⊎ (F.le deadline (clock (suc (queries_attempted o))) ≡ true)))
  unfolding run_round
  run_round_deadline has_journal s names statements measured shape queries =
      let o =
        run_round print child clock has_journal (some s) names (generated statements measured shape)
          queries in
      let (within, over) =
        receive_setup-InTime child.setup s names statements measured _ _ queries in
      (
        λ j. elim (Bool-cases (ltb j (queries_attempted o))) [
          | inl attempted ↦ inr (within j (ground (arith, attempted)))
          | inr not_attempted ↦ inl (ground (arith, not_attempted))
        ],
        elim (Bool-cases o.stopped_for_budget) [
          | inl stopped ↦ inr (over stopped)
          | inr not_stopped ↦ inl not_stopped
        ],
      )
