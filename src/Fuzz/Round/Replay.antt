-- ===== src/Fuzz/Round/Replay.antt =====
-- eqgen/fuzz/round.py and journal.py: what the log of a round says of its queries.
use coa.Base.{
  ℕ, suc, ◌+◌, Bool, if◌then◌else◌, Option, none, some, is_some, List, [], ◌∷◌, ◌++◌, ◌≡◌, refl,
  sym, ap, ◌∙◌, append_assoc, append-nil, map, length, take, All, arith,
}
use mathlib.Core.List.{foldl, map-append}
use coa.Base.Text.{Text}
use coa.Base.Strings.{IsPlain}
use coa.Fuzz.Journal.{
  Event, began, ended, recorded, JournalEntry, entry, without_end, annotate_last,
  queries_from_journal,
}
use coa.Fuzz.Journal.Clean.{IsClean}
use coa.Fuzz.Journal.RoundTrip.{journal, note_event, parse_journal-journal}
use coa.Fuzz.Objects.{ObjectComparison}
use coa.Fuzz.Schedule.{RoundTimeScheduler, EquivalenceComplexity}
use coa.Fuzz.Floats.{Floats}
use coa.Fuzz.Outcome.{
  Child, Setup, ready, setup_failed, setup_hung, setup_died, Printing, Generated, not_generated,
  generated, Loop, queries_attempted,
}
use coa.Fuzz.Round.{
  query_loop, run_round, receive_setup, crashed_on, opening, budget_of, deadline_of,
}
use coa.Fuzz.Round.Rule.{loop_rule}

-- the queries that a log says were begun
abbrev pub began_of : List Event → List Text
began_of [] = []
began_of (began sql ∷ events) = sql ∷ began_of events
began_of (ended message ∷ events) = began_of events
began_of (recorded title lines ∷ events) = began_of events

pub began_of-append : (es fs : List Event) → began_of (es ++ fs) ≡ began_of es ++ began_of fs
began_of-append [] fs = refl
began_of-append (began sql ∷ es) fs = ap (λ r. sql ∷ r) (began_of-append es fs)
began_of-append (ended message ∷ es) fs = began_of-append es fs
began_of-append (recorded title lines ∷ es) fs = began_of-append es fs

one_more : (n m : ℕ) → suc (n + m) ≡ suc n + m
one_more n m = omega arith

-- how many queries a loop began
abbrev pub attempts : {Row : Type 0} → Loop Row → ℕ
attempts loop = length loop.done + (if is_some loop.crash then 1 else 0)

abbrev sqls : List JournalEntry → List Text
sqls = map (λ e. e.sql)

sqls-annotate_last : (m : Text) (es : List JournalEntry) → sqls (annotate_last m es) ≡ sqls es
unfolding annotate_last
sqls-annotate_last m [] = refl
sqls-annotate_last m (e ∷ []) = refl
sqls-annotate_last m (e ∷ f ∷ es) = ap (λ r. e.sql ∷ r) (sqls-annotate_last m (f ∷ es))

sqls-notes :
    (es : List JournalEntry) (events : List Event)
    → sqls (foldl note_event es events) ≡ sqls es ++ map without_end (began_of events)
sqls-notes es [] = sym (append-nil (sqls es))
sqls-notes es (began sql ∷ events) =
    sqls-notes (es ++ entry (without_end sql) ∷ []) events
    ∙ ap (λ r. r ++ map without_end (began_of events))
        (map-append (λ e. e.sql) es (entry (without_end sql) ∷ []))
    ∙ append_assoc (sqls es) (without_end sql ∷ []) (map without_end (began_of events))
sqls-notes es (ended message ∷ events) =
    sqls-notes (annotate_last message es) events
    ∙ ap (λ r. r ++ map without_end (began_of events)) (sqls-annotate_last message es)
sqls-notes es (recorded title lines ∷ events) = sqls-notes es events

pub is_some-crashed_on : (crash : Option (Text × Text)) → is_some (crashed_on crash) ≡ is_some crash
is_some-crashed_on none = refl
is_some-crashed_on (some k) = refl

-- what is logged of a tree begins no query
abbrev pub IsAboutTree : {F : Floats} → Generated F → Type 0
IsAboutTree (not_generated error) = Unit
IsAboutTree (generated statements measured shape) = began_of shape ≡ []

module _ {F : Floats} {Row : Type 0} (print : Printing F Row) (child : Child Row)
    (clock : ℕ → F.Float) where
  loop-began :
      (deadline : Option F.Float) (i : ℕ) (qs : List Text)
      → began_of (query_loop print child clock deadline i qs).told
        ≡ take (attempts (query_loop print child clock deadline i qs)) qs
  loop-began deadline =
      loop_rule print child clock deadline
        (λ i qs loop. began_of loop.told ≡ take (attempts loop) qs) (λ i. refl)
        (λ i q qs late. refl)
        (λ i q qs r rest early e ih.
          ap (λ r. q ∷ r) ih
          ∙ ap (λ n. take n (q ∷ qs))
              (one_more (length rest.done) (if is_some rest.crash then 1 else 0)))
        (λ i q qs reply note how early e other. refl)

  -- the queries that a log begun with no query, and told of a loop, has
  told-began :
      (deadline : Option F.Float) (before : List Event) (queries : List Text)
      → began_of before ≡ []
      → (let loop = query_loop print child clock deadline 0 queries in
          began_of (before ++ loop.told) ≡ take (attempts loop) queries)
  told-began deadline before queries h =
      let loop = query_loop print child clock deadline 0 queries in
      began_of-append before loop.told
      ∙ ap (λ b. b ++ began_of loop.told) h
      ∙ loop-began deadline 0 queries

  silent : (es fs : List Event) → began_of es ≡ [] → began_of fs ≡ [] → began_of (es ++ fs) ≡ []
  silent es fs h k = began_of-append es fs ∙ ap (λ b. b ++ began_of fs) h ∙ k

  opening-silent :
      (c : ObjectComparison Row) (measured : EquivalenceComplexity F) (budget : Option F.Float)
      → began_of (opening print c measured budget) ≡ []
  unfolding opening
  opening-silent c measured none = refl
  opening-silent c measured (some b) = refl

  receive_setup-began :
      (s : Setup Row) (scheduler : Option (RoundTimeScheduler F)) (names statements : List Text)
      (measured : EquivalenceComplexity F) (complexity : Option (EquivalenceComplexity F))
      (built : List Event) (queries : List Text)
      → began_of built ≡ []
      → (let o =
            receive_setup print child clock s scheduler names statements measured complexity built
              queries in
          began_of o.events ≡ take (queries_attempted o) queries)
  unfolding receive_setup queries_attempted
  receive_setup-began (setup_hung note) scheduler names statements measured complexity built queries
        h =
      silent built _ h refl
  receive_setup-began (setup_died note) scheduler names statements measured complexity built queries
        h =
      silent built _ h refl
  receive_setup-began (setup_failed error known) scheduler names statements measured complexity
        built queries h =
      silent built _ h refl
  receive_setup-began (ready c) scheduler names statements measured complexity built queries h =
      let budget = budget_of F scheduler measured in
      let loop = query_loop print child clock (deadline_of F clock budget) 0 queries in
      let told = opening print c measured budget in
      told-began (deadline_of F clock budget) (built ++ told) queries
        (silent built told h (opening-silent c measured budget))
      ∙ ap (λ b. take (length loop.done + (if b then 1 else 0)) queries)
          (sym (is_some-crashed_on loop.crash))

  -- The queries that a round logs are the first ones of its source, as many as it attempted.
  pub run_round-began :
      (has_journal : Bool) (scheduler : Option (RoundTimeScheduler F)) (names : List Text)
      (g : Generated F) (queries : List Text)
      → IsAboutTree g
      → (let o = run_round print child clock has_journal scheduler names g queries in
          began_of o.events ≡ take (queries_attempted o) queries)
  unfolding run_round queries_attempted
  run_round-began has_journal scheduler names (not_generated error) queries h = refl
  run_round-began has_journal scheduler names (generated statements measured shape) queries h =
      receive_setup-began child.setup scheduler names statements measured _ _ queries
        (silent shape _ h refl)

  -- Replaying the journal of a round, whatever the child and the clock did, gives the queries that
  -- the round attempted, in order and without their ends, the one that killed the engine included.
  -- It holds for a journal that reads back and a tree description that begins no query.
  pub run_round-replay :
      (header : Text) (has_journal : Bool) (scheduler : Option (RoundTimeScheduler F))
      (names : List Text) (g : Generated F) (queries : List Text)
      → IsAboutTree g
      → IsPlain header
      → All IsClean (run_round print child clock has_journal scheduler names g queries).events
      → (let o = run_round print child clock has_journal scheduler names g queries in
          queries_from_journal (journal header o.events)
          ≡ map without_end (take (queries_attempted o) queries))
  unfolding queries_from_journal
  run_round-replay header has_journal scheduler names g queries h plain clean =
      let o = run_round print child clock has_journal scheduler names g queries in
      ap sqls (parse_journal-journal header o.events plain clean)
      ∙ sqls-notes [] o.events
      ∙ ap (map without_end) (run_round-began has_journal scheduler names g queries h)
