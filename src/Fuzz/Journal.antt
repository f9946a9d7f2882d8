-- ===== src/Fuzz/Journal.antt =====
-- eqgen/fuzz/journal.py: the log that a round writes line by line, and how it is read back. The
-- state is the contents of the file; each write ends a line and is flushed.
pub mod Clean
pub mod RoundTrip
mod Tests
use coa.Base.{
  ℕ, ◌==◌, map, Bool, true, false, ◌||◌, if◌then◌else◌, Option, none, some, List, [], ◌∷◌, ◌++◌,
}
use mathlib.Core.List.{foldl}
use coa.Base.Text.{Text, codes, join}
use coa.Base.Strings.{newline, is_space, splitlines, rstrip_by, starts_with, ends_with, is_blank}

abbrev pub semicolon : ℕ
semicolon = b';'

-- `_ANNOTATION`
abbrev pub annotation_prefix : Text
annotation_prefix = codes "-- => "

abbrev pub comment_prefix : Text
comment_prefix = codes "--"

-- `QueryJournal._write`
unfoldable pub write : Text → Text → Text
write contents line = contents ++ line ++ newline

-- `QueryJournal.__init__`, on a file opened for writing
unfoldable pub open_journal : Text → Text
unfolding write
open_journal [] = []
open_journal (c ∷ header) = write [] (codes "-- " ++ c ∷ header)

-- `sql.rstrip().rstrip(";")`
unfoldable pub without_end : Text → Text
unfolding rstrip_by is_space
without_end sql = rstrip_by (λ c. c == semicolon) (rstrip_by is_space sql)

-- `QueryJournal.begin`
unfoldable pub begin : Text → Text → Text
unfolding write without_end
begin contents sql = write contents (without_end sql ++ semicolon ∷ [])

-- `QueryJournal.end`, and `note`, which writes the same line
unfoldable pub annotate : Text → Text → Text
unfolding write
annotate contents message = write contents (annotation_prefix ++ message)

-- `splitlines() or [""]`
unfoldable pub physical_lines : Text → List Text
unfolding splitlines
physical_lines text = elim (splitlines text) [ [] ↦ [] ∷ [] | l ∷ ls ↦ l ∷ ls ]

-- `QueryJournal.record`
unfoldable pub record_block : Text → Text → List Text → Text
unfolding write physical_lines
record_block contents title lines =
    foldl
      (λ c line. foldl (λ d physical. write d (codes "--   " ++ physical)) c (physical_lines line))
      (write contents (codes "-- ==== " ++ title ++ codes " ====")) lines

pub record JournalEntry : Type 0 where
  pub sql : Text
  pub annotation : Option Text

abbrev pub entry : Text → JournalEntry
entry sql = record { sql = sql; annotation = none }

-- the two variables of the loop of `parse_journal`
abbrev pub Parsing : Type 0
Parsing = List JournalEntry × List Text

-- `entries[-1] = JournalEntry(entries[-1].sql, annotation)`, where there is an entry
unfoldable pub annotate_last : Text → List JournalEntry → List JournalEntry
annotate_last message [] = []
annotate_last message (e ∷ []) = record e { annotation = some message } ∷ []
annotate_last message (e ∷ f ∷ es) = e ∷ annotate_last message (f ∷ es)

-- `JournalEntry("\n".join(pending).rstrip().rstrip(";"))`
unfoldable pub close_entry : List Text → JournalEntry
unfolding without_end join
close_entry pending = entry (without_end (join newline pending))

abbrev drop : Text → Text → Text
drop [] s = s
drop (p ∷ prefix) [] = []
drop (p ∷ prefix) (c ∷ s) = drop prefix s

abbrev none_pending : List Text → Bool
none_pending [] = true
none_pending (l ∷ pending) = false

-- the body of the loop of `parse_journal`
unfoldable pub parse_line : Parsing → Text → Parsing
unfolding starts_with is_blank ends_with annotate_last close_entry rstrip_by
parse_line (entries, pending) line =
    if starts_with annotation_prefix line
    then (if none_pending pending
        then (annotate_last (drop annotation_prefix line) entries, pending)
        else (entries, pending))
    else if starts_with comment_prefix line || is_blank line
    then (entries, pending)
    else if ends_with semicolon (rstrip_by is_space line)
    then (entries ++ close_entry (pending ++ line ∷ []) ∷ [], [])
    else (entries, pending ++ line ∷ [])

abbrev pub finish_parsing : Parsing → List JournalEntry
finish_parsing (entries, []) = entries
finish_parsing (entries, l ∷ pending) = entries ++ close_entry (l ∷ pending) ∷ []

-- `parse_journal`
unfoldable pub parse_journal : Text → List JournalEntry
unfolding splitlines parse_line
parse_journal text = finish_parsing (foldl parse_line ([], []) (splitlines text))

-- `queries_from_journal`, from the text of the file
unfoldable pub queries_from_journal : Text → List Text
unfolding parse_journal
queries_from_journal text = map (λ e. e.sql) (parse_journal text)

-- the calls that a round makes of its journal
pub data Event : Type 0 where
  began : Text → Event
  ended : Text → Event
  recorded : Text → List Text → Event

unfoldable pub log : Text → Event → Text
unfolding begin annotate record_block
log contents (began sql) = begin contents sql
log contents (ended message) = annotate contents message
log contents (recorded title lines) = record_block contents title lines
