-- ===== src/Fuzz/Journal/RoundTrip.antt =====
-- eqgen/fuzz/journal.py: reading a log back gives the queries that were begun, with their verdicts.
use coa.Base.{
  ℕ, ◌==◌, Bool, true, false, ◌&&◌, if◌then◌else◌, List, [], ◌∷◌, ◌++◌, ◌≡◌, refl, sym, ap, ◌∙◌,
  append_assoc, append-nil, map, All, All-append, arith,
}
use mathlib.Core.List.{foldl, foldl-append}
use coa.Base.Text.{Text, codes}
use coa.Base.Strings.{
  newline, is_space, is_break, splitlines, rstrip_by, starts_with, terminated, IsPlain,
  no_break-IsPlain, splitlines-IsPlain, splitlines-terminated, is_empty_text,
}
use coa.Fuzz.Journal.{
  Event, began, ended, recorded, JournalEntry, entry, Parsing, semicolon, annotation_prefix,
  comment_prefix, open_journal, without_end, physical_lines, annotate_last, close_entry, parse_line,
  parse_journal, log, write, finish_parsing,
}
use coa.Fuzz.Journal.Clean.{
  statement, IsQueryLine, closes, IsOneQuery, IsClean, block_lines, lines_of, terminated-append,
  log-terminated,
}

-- What a reader is meant to find: an entry for each query begun, each with the last verdict that
-- followed it.
abbrev pub note_event : List JournalEntry → Event → List JournalEntry
note_event entries (began sql) = entries ++ entry (without_end sql) ∷ []
note_event entries (ended message) = annotate_last message entries
note_event entries (recorded title lines) = entries

abbrev pub entries_of : List Event → List JournalEntry
entries_of events = foldl note_event [] events

rstrip-append_kept :
    (p : ℕ → Bool) (c : ℕ) (s : Text) → p c ≡ false → rstrip_by p (s ++ c ∷ []) ≡ s ++ c ∷ []
unfolding rstrip_by
rstrip-append_kept p c [] h = rw h refl
rstrip-append_kept p c (d ∷ []) h = rw h (ground arith)
rstrip-append_kept p c (d ∷ e ∷ s) h =
    ap (λ r. if p d && is_empty_text r then [] else d ∷ r) (rstrip-append_kept p c (e ∷ s) h)
    ∙ ground arith

rstrip-append_gone :
    (p : ℕ → Bool) (c : ℕ) (s : Text) → p c ≡ true → rstrip_by p (s ++ c ∷ []) ≡ rstrip_by p s
unfolding rstrip_by
rstrip-append_gone p c [] h = rw h refl
rstrip-append_gone p c (d ∷ s) h =
    ap (λ r. if p d && is_empty_text r then [] else d ∷ r) (rstrip-append_gone p c s h)

rstrip_idem : (p : ℕ → Bool) (s : Text) → rstrip_by p (rstrip_by p s) ≡ rstrip_by p s
unfolding rstrip_by
rstrip_idem p [] = refl
rstrip_idem p (c ∷ s) = shut (p c) refl (rstrip_by p s) (rstrip_idem p s)
  where
    shut :
        (b : Bool)
        → p c ≡ b
        → (r : Text) → rstrip_by p r ≡ r
        → rstrip_by p (if b && is_empty_text r then [] else c ∷ r)
          ≡ (if b && is_empty_text r then [] else c ∷ r)
    shut true e [] h = refl
    shut false e [] h = rw e refl
    shut b e (d ∷ r) h = kept b
      where
        again : rstrip_by p (c ∷ d ∷ r) ≡ c ∷ d ∷ r
        again = ap (λ r. if p c && is_empty_text r then [] else c ∷ r) h ∙ ground arith

        kept :
            (b : Bool)
            → rstrip_by p (if b && false then [] else c ∷ d ∷ r)
              ≡ (if b && false then [] else c ∷ d ∷ r)
        kept true = again
        kept false = again

-- The end that `begin` writes is what the reader takes off.
without_end-statement : (sql : Text) → without_end (statement sql) ≡ without_end sql
unfolding without_end is_space
without_end-statement sql =
    let body = rstrip_by is_space sql in
    ap (rstrip_by (λ c. c == semicolon))
      (rstrip-append_kept is_space semicolon (rstrip_by (λ c. c == semicolon) body) refl)
    ∙ rstrip-append_gone (λ c. c == semicolon) semicolon (rstrip_by (λ c. c == semicolon) body) refl
    ∙ rstrip_idem (λ c. c == semicolon) body

-- A line that is no comment is no annotation.
not_annotation :
    (line : Text)
    → starts_with comment_prefix line ≡ false
    → starts_with annotation_prefix line ≡ false
unfolding starts_with
not_annotation [] h = refl
not_annotation (c ∷ []) h = ground arith
not_annotation (c ∷ d ∷ line) h = ground arith

parse_line-query :
    (entries : List JournalEntry) (pending : List Text) (line : Text)
    → IsQueryLine line
    → parse_line (entries, pending) line ≡ (
        if closes line
        then (entries ++ close_entry (pending ++ line ∷ []) ∷ [], [])
        else (entries, pending ++ line ∷ []))
unfolding parse_line
parse_line-query entries pending line h = rw (not_annotation line h.0, h.0, h.1) refl

parse-query :
    (entries : List JournalEntry) (pending lines : List Text)
    → IsOneQuery lines
    → foldl parse_line (entries, pending) lines
      ≡ (entries ++ close_entry (pending ++ lines) ∷ [], [])
parse-query entries pending [] h = elim h [ ]
parse-query entries pending (line ∷ []) h = parse_line-query entries pending line h.0 ∙ rw h.1 refl
parse-query entries pending (line ∷ next ∷ lines) h =
    ap (λ state. foldl parse_line state (next ∷ lines))
      (parse_line-query entries pending line h.0 ∙ rw h.1 refl)
    ∙ parse-query entries (pending ++ line ∷ []) (next ∷ lines) h.2
    ∙ ap (λ ls. (entries ++ close_entry ls ∷ [], []))
        (append_assoc pending (line ∷ []) (next ∷ lines))

parse-comments :
    (state : Parsing) (ps lines : List Text)
    → foldl parse_line state (map (λ p. codes "--   " ++ p) ps ++ lines)
      ≡ foldl parse_line state lines
unfolding parse_line starts_with
parse-comments state [] lines = refl
parse-comments state (p ∷ ps) lines = parse-comments state ps lines

parse-block :
    (state : Parsing) (lines : List Text) → foldl parse_line state (block_lines lines) ≡ state
parse-block state [] = refl
parse-block state (line ∷ lines) =
    parse-comments state (physical_lines line) (block_lines lines) ∙ parse-block state lines

parse-lines_of :
    (entries : List JournalEntry) (e : Event)
    → IsClean e
    → foldl parse_line (entries, []) (lines_of e) ≡ (note_event entries e, [])
unfolding parse_line starts_with close_entry
parse-lines_of entries (began sql) h =
    parse-query entries [] (splitlines (statement sql)) h.1
    ∙ ap (λ s. (entries ++ entry s ∷ [], [])) (ap without_end h.0 ∙ without_end-statement sql)
parse-lines_of entries (ended message) h = refl
parse-lines_of entries (recorded title lines) h = parse-block (entries, []) lines

lines_of_all : List Event → List Text
lines_of_all [] = []
lines_of_all (e ∷ events) = lines_of e ++ lines_of_all events

logs-terminated :
    (contents : Text) (events : List Event)
    → All IsClean events
    → foldl log contents events ≡ contents ++ terminated (lines_of_all events)
unfolding lines_of_all terminated
logs-terminated contents [] h = sym (append-nil contents)
logs-terminated contents (e ∷ events) h =
    logs-terminated (log contents e) events h.1
    ∙ ap (λ c. c ++ terminated (lines_of_all events)) (log-terminated contents e h.0)
    ∙ append_assoc contents (terminated (lines_of e)) (terminated (lines_of_all events))
    ∙ ap (λ r. contents ++ r) (sym (terminated-append (lines_of e) (lines_of_all events)))

parse-lines_of_all :
    (entries : List JournalEntry) (events : List Event)
    → All IsClean events
    → foldl parse_line (entries, []) (lines_of_all events) ≡ (foldl note_event entries events, [])
unfolding lines_of_all
parse-lines_of_all entries [] h = refl
parse-lines_of_all entries (e ∷ events) h =
    foldl-append parse_line (entries, []) (lines_of e) (lines_of_all events)
    ∙ ap (λ state. foldl parse_line state (lines_of_all events)) (parse-lines_of entries e h.0)
    ∙ parse-lines_of_all (note_event entries e) events h.1

annotation-IsPlain : IsPlain annotation_prefix
unfolding is_break
annotation-IsPlain = no_break-IsPlain annotation_prefix refl

comment_mark-IsPlain : IsPlain (codes "-- ")
unfolding is_break
comment_mark-IsPlain = no_break-IsPlain (codes "-- ") refl

indent-IsPlain : IsPlain (codes "--   ")
unfolding is_break
indent-IsPlain = no_break-IsPlain (codes "--   ") refl

heading-IsPlain : IsPlain (codes "-- ==== ") × IsPlain (codes " ====")
unfolding is_break
heading-IsPlain = (no_break-IsPlain (codes "-- ==== ") refl, no_break-IsPlain (codes " ====") refl)

physical_lines-IsPlain : (line : Text) → All IsPlain (physical_lines line)
unfolding physical_lines
physical_lines-IsPlain line = some_line (splitlines line) (splitlines-IsPlain line)
  where
    some_line :
        (ls : List Text) → All IsPlain ls → All IsPlain (elim ls [ [] ↦ [] ∷ [] | l ∷ ls ↦ l ∷ ls ])
    some_line [] h = (tt, tt)
    some_line (l ∷ ls) h = h

block_lines-IsPlain : (lines : List Text) → All IsPlain (block_lines lines)
block_lines-IsPlain [] = tt
block_lines-IsPlain (line ∷ lines) =
    All-append IsPlain (map (λ p. codes "--   " ++ p) (physical_lines line)) (block_lines lines)
      (indented (physical_lines line) (physical_lines-IsPlain line)) (block_lines-IsPlain lines)
  where
    indented : (ps : List Text) → All IsPlain ps → All IsPlain (map (λ p. codes "--   " ++ p) ps)
    indented [] h = tt
    indented (p ∷ ps) h = (All-append _ (codes "--   ") p indent-IsPlain h.0, indented ps h.1)

lines_of-IsPlain : (e : Event) → IsClean e → All IsPlain (lines_of e)
lines_of-IsPlain (began sql) h = splitlines-IsPlain (statement sql)
lines_of-IsPlain (ended message) h =
    (All-append _ annotation_prefix message annotation-IsPlain h, tt)
lines_of-IsPlain (recorded title lines) h = (
  All-append _ (codes "-- ==== " ++ title) (codes " ====")
      (All-append _ (codes "-- ==== ") title heading-IsPlain.0 h) heading-IsPlain.1,
  block_lines-IsPlain lines,
)

lines_of_all-IsPlain :
    (events : List Event) → All IsClean events → All IsPlain (lines_of_all events)
unfolding lines_of_all
lines_of_all-IsPlain [] h = tt
lines_of_all-IsPlain (e ∷ events) h =
    All-append IsPlain (lines_of e) (lines_of_all events) (lines_of-IsPlain e h.0)
      (lines_of_all-IsPlain events h.1)

-- a journal opened with a header and then written to
abbrev pub journal : Text → List Event → Text
journal header events = foldl log (open_journal header) events

header_lines : Text → List Text
header_lines [] = []
header_lines (c ∷ header) = (codes "-- " ++ c ∷ header) ∷ []

open_journal-terminated : (header : Text) → open_journal header ≡ terminated (header_lines header)
unfolding open_journal write terminated header_lines
open_journal-terminated [] = refl
open_journal-terminated (c ∷ header) = sym (append-nil (codes "-- " ++ c ∷ header ++ newline))

header_lines-IsPlain : (header : Text) → IsPlain header → All IsPlain (header_lines header)
unfolding header_lines
header_lines-IsPlain [] h = tt
header_lines-IsPlain (c ∷ header) h =
    (All-append _ (codes "-- ") (c ∷ header) comment_mark-IsPlain h, tt)

-- A header is no entry, even one that reads like a verdict.
parse-header : (header : Text) → foldl parse_line ([], []) (header_lines header) ≡ ([], [])
unfolding header_lines parse_line starts_with annotate_last
parse-header [] = refl
parse-header (c ∷ header) = ground arith

journal-terminated :
    (header : Text) (events : List Event)
    → All IsClean events
    → journal header events ≡ terminated (header_lines header ++ lines_of_all events)
journal-terminated header events h =
    logs-terminated (open_journal header) events h
    ∙ ap (λ c. c ++ terminated (lines_of_all events)) (open_journal-terminated header)
    ∙ sym (terminated-append (header_lines header) (lines_of_all events))

-- Reading the journal that a sequence of calls wrote gives one entry for each query that was begun,
-- in order, with the annotation told last before the next query, and nothing of the titled blocks.
-- The header, annotations and titles are single lines, and each query has only line feeds between
-- its lines, of which none is blank or a comment and none but the last ends in a semicolon.
pub parse_journal-journal :
    (header : Text) (events : List Event)
    → IsPlain header
    → All IsClean events
    → parse_journal (journal header events) ≡ entries_of events
unfolding parse_journal
parse_journal-journal header events plain clean =
    let lines = header_lines header ++ lines_of_all events in
    ap (λ text. finish_parsing (foldl parse_line ([], []) (splitlines text)))
      (journal-terminated header events clean)
    ∙ ap (λ ls. finish_parsing (foldl parse_line ([], []) ls))
        (splitlines-terminated lines (
          All-append IsPlain (header_lines header) (lines_of_all events)
            (header_lines-IsPlain header plain) (lines_of_all-IsPlain events clean)))
    ∙ ap finish_parsing (
        foldl-append parse_line ([], []) (header_lines header) (lines_of_all events)
        ∙ ap (λ state. foldl parse_line state (lines_of_all events)) (parse-header header)
        ∙ parse-lines_of_all [] events clean)
