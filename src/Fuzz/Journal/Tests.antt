-- ===== src/Fuzz/Journal/Tests.antt =====
-- eqgen/fuzz/journal.py on small logs.
use coa.Base.{some, List, [], ◌∷◌, ◌≡◌, refl, All}
use coa.Base.Text.{codes, join}
use coa.Base.Strings.{
  is_break, is_space, splitlines, rstrip_by, starts_with, ends_with, is_blank, no_break-IsPlain,
  IsPlain,
}
use coa.Fuzz.Journal.{
  Event, began, ended, recorded, entry, open_journal, write, without_end, begin, annotate,
  annotate_last, close_entry, parse_line, parse_journal, queries_from_journal, log,
}
use coa.Fuzz.Journal.Clean.{IsClean, IsReplayable}
use coa.Fuzz.Journal.RoundTrip.{journal, entries_of, parse_journal-journal}

abbrev two_queries : List Event
two_queries =
    recorded (codes "equivalence DDL") (codes "CREATE VIEW v AS SELECT 1;" ∷ [])
    ∷ began (codes "SELECT c\nFROM t;")
    ∷ ended (codes "PASS")
    ∷ began (codes "SELECT 2")
    ∷ []

select-IsReplayable : IsReplayable (codes "SELECT 2")
unfolding splitlines join without_end rstrip_by is_space is_break starts_with ends_with is_blank
select-IsReplayable = (refl, ((refl, refl), refl))

lines-IsReplayable : IsReplayable (codes "SELECT c\nFROM t;")
unfolding splitlines join without_end rstrip_by is_space is_break starts_with ends_with is_blank
lines-IsReplayable = (refl, ((refl, refl), refl, ((refl, refl), refl)))

IsPlain-pass : IsPlain (codes "PASS")
unfolding is_break
IsPlain-pass = no_break-IsPlain (codes "PASS") refl

IsPlain-title : IsPlain (codes "equivalence DDL")
unfolding is_break
IsPlain-title = no_break-IsPlain (codes "equivalence DDL") refl

two_queries-IsClean : All IsClean two_queries
two_queries-IsClean =
    (IsPlain-title, (lines-IsReplayable, (IsPlain-pass, (select-IsReplayable, tt))))

IsPlain-header : IsPlain (codes "seed 7")
unfolding is_break
IsPlain-header = no_break-IsPlain (codes "seed 7") refl

parse_journal-journal_example :
    parse_journal (journal (codes "seed 7") two_queries) ≡ entries_of two_queries
parse_journal-journal_example =
    parse_journal-journal (codes "seed 7") two_queries IsPlain-header two_queries-IsClean

-- the statement that was running when the log stops is its last entry, with no verdict
entries-two_queries :
    entries_of two_queries
    ≡ record { sql = codes "SELECT c\nFROM t"; annotation = some (codes "PASS") }
      ∷ entry (codes "SELECT 2")
      ∷ []
unfolding without_end rstrip_by is_space annotate_last
entries-two_queries = refl

-- A verdict of two lines is read back as a verdict and a piece of the next query.
verdict_of_two_lines :
    queries_from_journal (
      journal [] (
        began (codes "SELECT 1")
        ∷ ended (codes "ERROR (equivalent): no\nLINE 1: x")
        ∷ began (codes "SELECT 2")
        ∷ []))
    ≡ codes "SELECT 1" ∷ codes "LINE 1: x\nSELECT 2" ∷ []
unfolding queries_from_journal parse_journal parse_line log begin annotate open_journal write
    without_end close_entry annotate_last splitlines join rstrip_by is_space is_break starts_with
    ends_with is_blank
verdict_of_two_lines = refl
