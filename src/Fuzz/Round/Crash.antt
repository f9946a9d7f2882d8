-- ===== src/Fuzz/Round/Crash.antt =====
-- eqgen/fuzz/round.py and journal.py: the query that killed the engine is the last entry of the log.
use coa.Base.{
  ℕ, Bool, Option, none, some, List, [], ◌∷◌, ◌++◌, ◌≡◌, refl, sym, subst, ap, ◌∙◌, append_assoc,
  All,
}
use mathlib.Core.List.{foldl-append}
use coa.Base.Text.{Text, codes}
use coa.Base.Strings.{IsPlain}
use coa.Fuzz.Journal.{
  Event, began, ended, JournalEntry, entry, without_end, annotate_last, parse_journal,
}
use coa.Fuzz.Journal.Clean.{IsClean}
use coa.Fuzz.Journal.RoundTrip.{journal, note_event, entries_of, parse_journal-journal}
use coa.Fuzz.Schedule.{RoundTimeScheduler, EquivalenceComplexity}
use coa.Fuzz.Floats.{Floats}
use coa.Fuzz.Outcome.{
  verdict, Child, Setup, ready, setup_failed, setup_hung, setup_died, Printing, Generated,
  not_generated, generated,
}
use coa.Fuzz.Round.{
  query_loop, run_round, receive_setup, crashed_on, budget_of, deadline_of, opening,
}
use coa.Fuzz.Round.Rule.{loop_rule}

annotate_last-concat :
    (e : JournalEntry) (m : Text) (es : List JournalEntry)
    → annotate_last m (es ++ e ∷ []) ≡ es ++ record e { annotation = some m } ∷ []
unfolding annotate_last
annotate_last-concat e m [] = refl
annotate_last-concat e m (f ∷ []) = refl
annotate_last-concat e m (f ∷ g ∷ es) = ap (λ r. f ∷ r) (annotate_last-concat e m (g ∷ es))

none-ne-some_text : (t : Text) → ◌≡◌ {A = Option Text} none (some t) → ⊥
none-ne-some_text t h = cc

crash-of :
    (crash : Option (Text × Text)) (q : Text)
    → crashed_on crash ≡ some q
    → (note : Text) × (crash ≡ some (q, note))
crash-of none q h = absurd (none-ne-some_text q h)
crash-of (some (q', note)) q h = (note, cc)

-- what a log ends with after a crash
abbrev pub EndsInCrash : List Event → Text → Text → Type 0
EndsInCrash told q note =
    (before : List Event) × (how : Text) × (told
      ≡ before ++ began q ∷ ended (how ++ note ++ codes ")") ∷ [])

-- the entry of a query that killed the engine, behind the others
abbrev pub LastEntry : List JournalEntry → Text → Type 0
LastEntry entries q =
    (before : List JournalEntry) × (message : Text) × (entries
      ≡ before ++ record { sql = without_end q; annotation = some message } ∷ [])

notes-crash :
    (events : List Event) (q note : Text)
    → EndsInCrash events q note
    → LastEntry (entries_of events) q
unfolding annotate_last
notes-crash events q note (before, how, told) =
    let message = how ++ note ++ codes ")" in
    (
      entries_of before,
      message,
      ap entries_of told
          ∙ foldl-append note_event [] before (began q ∷ ended message ∷ [])
          ∙ annotate_last-concat (entry (without_end q)) message (entries_of before),
    )

-- what was told before stays in front
behind :
    (built told : List Event) (q note : Text)
    → EndsInCrash told q note
    → EndsInCrash (built ++ told) q note
behind built told q note (before, how, e) = (
  built ++ before,
  how,
  ap (λ t. built ++ t) e
      ∙ sym (append_assoc built before (began q ∷ ended (how ++ note ++ codes ")") ∷ [])),
)

module _ {F : Floats} {Row : Type 0} (print : Printing F Row) (child : Child Row)
    (clock : ℕ → F.Float) where
  loop-crash :
      (deadline : Option F.Float) (i : ℕ) (qs : List Text) (q note : Text)
      → (query_loop print child clock deadline i qs).crash ≡ some (q, note)
      → EndsInCrash (query_loop print child clock deadline i qs).told q note
  loop-crash deadline =
      loop_rule print child clock deadline
        (λ i qs loop. (q note : Text) → loop.crash ≡ some (q, note) → EndsInCrash loop.told q note)
        (λ i q note h. cc) (λ i q qs late q' note h. cc)
        (λ i q qs r rest early e ih q' note h.
          let (before, how, told) = ih q' note h in
          (
            began q ∷ ended (verdict print.sample r) ∷ before,
            how,
            ap (λ t. began q ∷ ended (verdict print.sample r) ∷ t) told,
          ))
        (λ i q qs reply note how early e other q' note' h. ([], how, cc))

  receive_setup-crash :
      (s : Setup Row) (scheduler : Option (RoundTimeScheduler F)) (names statements : List Text)
      (measured : EquivalenceComplexity F) (complexity : Option (EquivalenceComplexity F))
      (built : List Event) (queries : List Text) (q : Text)
      → (let o =
            receive_setup print child clock s scheduler names statements measured complexity built
              queries in
          o.crashed_query ≡ some q → LastEntry (entries_of o.events) q)
  unfolding receive_setup
  receive_setup-crash (setup_hung note) scheduler names statements measured complexity built queries
        q h =
      absurd (none-ne-some_text q h)
  receive_setup-crash (setup_died note) scheduler names statements measured complexity built queries
        q h =
      absurd (none-ne-some_text q h)
  receive_setup-crash (setup_failed error known) scheduler names statements measured complexity
        built queries q h =
      absurd (none-ne-some_text q h)
  receive_setup-crash (ready c) scheduler names statements measured complexity built queries q h =
      let deadline = deadline_of F clock (budget_of F scheduler measured) in
      let loop = query_loop print child clock deadline 0 queries in
      let told = built ++ opening print c measured (budget_of F scheduler measured) in
      let (note, e) = crash-of loop.crash q h in
      notes-crash (told ++ loop.told) q note
        (behind told loop.told q note (loop-crash deadline 0 queries q note e))

  -- When a query killed the engine or hung, it is the last entry of the round's journal, with an
  -- annotation, if the journal reads back.
  pub run_round-crash :
      (header : Text) (has_journal : Bool) (scheduler : Option (RoundTimeScheduler F))
      (names : List Text) (g : Generated F) (queries : List Text) (q : Text)
      → IsPlain header
      → All IsClean (run_round print child clock has_journal scheduler names g queries).events
      → (run_round print child clock has_journal scheduler names g queries).crashed_query ≡ some q
      → LastEntry
          (parse_journal (
            journal header
              (run_round print child clock has_journal scheduler names g queries).events))
          q
  unfolding run_round
  run_round-crash header has_journal scheduler names (not_generated error) queries q plain clean h =
      absurd (none-ne-some_text q h)
  run_round-crash header has_journal scheduler names (generated statements measured shape) queries q
        plain clean h =
      subst (λ es. LastEntry es q) (sym (parse_journal-journal header _ plain clean))
        (receive_setup-crash child.setup scheduler names statements measured _ _ queries q h)
