-- ===== src/Fuzz/Journal/Clean.antt =====
-- eqgen/fuzz/journal.py: the lines that each call of the journal writes, and the texts that a reader
-- of lines can tell apart from the lines around them.
use coa.Base.{
  Bool, true, false, List, [], ◌∷◌, ◌++◌, ◌≡◌, refl, sym, ap, ◌∙◌, append_assoc, append-nil, map,
}
use mathlib.Core.List.{foldl}
use coa.Base.Text.{Text, codes, join}
use coa.Base.Strings.{
  newline, is_space, splitlines, rstrip_by, starts_with, ends_with, is_blank, terminated, IsPlain,
}
use coa.Fuzz.Journal.{
  Event, began, ended, recorded, semicolon, annotation_prefix, comment_prefix, write, without_end,
  begin, annotate, physical_lines, record_block, log,
}

-- the statement that `begin` writes
abbrev pub statement : Text → Text
statement sql = without_end sql ++ semicolon ∷ []

-- a line that a reader takes for a part of a query
abbrev pub IsQueryLine : Text → Type 0
IsQueryLine line = (starts_with comment_prefix line ≡ false) × (is_blank line ≡ false)

-- a line that ends a query
abbrev pub closes : Text → Bool
closes line = ends_with semicolon (rstrip_by is_space line)

-- lines of which the last ends a query, and no other
abbrev pub IsOneQuery : List Text → Type 0
IsOneQuery [] = ⊥
IsOneQuery (line ∷ []) = IsQueryLine line × (closes line ≡ true)
IsOneQuery (line ∷ next ∷ lines) =
    IsQueryLine line × (closes line ≡ false) × IsOneQuery (next ∷ lines)

-- A query whose lines are apart by line feeds, none of them blank, a comment or a query's end before
-- the last.
abbrev pub IsReplayable : Text → Type 0
IsReplayable sql =
    (join newline (splitlines (statement sql)) ≡ statement sql)
    × IsOneQuery (splitlines (statement sql))

abbrev pub IsClean : Event → Type 0
IsClean (began sql) = IsReplayable sql
IsClean (ended message) = IsPlain message
IsClean (recorded title lines) = IsPlain title

abbrev pub block_lines : List Text → List Text
block_lines [] = []
block_lines (line ∷ lines) =
    map (λ p. codes "--   " ++ p) (physical_lines line) ++ block_lines lines

-- the lines that an event adds to the file
abbrev pub lines_of : Event → List Text
lines_of (began sql) = splitlines (statement sql)
lines_of (ended message) = (annotation_prefix ++ message) ∷ []
lines_of (recorded title lines) = (codes "-- ==== " ++ title ++ codes " ====") ∷ block_lines lines

pub terminated-append : (ls ms : List Text) → terminated (ls ++ ms) ≡ terminated ls ++ terminated ms
unfolding terminated
terminated-append [] ms = refl
terminated-append (l ∷ ls) ms =
    ap (λ r. l ++ newline ++ r) (terminated-append ls ms)
    ∙ sym (append_assoc (l ++ newline) (terminated ls) (terminated ms))

terminated-join :
    (l : Text) (ls : List Text) → terminated (l ∷ ls) ≡ join newline (l ∷ ls) ++ newline
unfolding terminated join
terminated-join l [] = append-nil (l ++ newline)
terminated-join l (m ∷ ls) =
    ap (λ r. l ++ newline ++ r) (terminated-join m ls)
    ∙ sym (append_assoc (l ++ newline) (join newline (m ∷ ls)) newline)

one_query-terminated : (ls : List Text) → IsOneQuery ls → terminated ls ≡ join newline ls ++ newline
one_query-terminated [] h = elim h [ ]
one_query-terminated (l ∷ ls) h = terminated-join l ls

write-terminated : (contents line : Text) → write contents line ≡ contents ++ terminated (line ∷ [])
unfolding write terminated
write-terminated contents line =
    append_assoc contents line newline
    ∙ ap (λ r. contents ++ r) (sym (append-nil (line ++ newline)))

writes-terminated :
    (ps : List Text) (contents : Text)
    → foldl (λ d p. write d (codes "--   " ++ p)) contents ps
      ≡ contents ++ terminated (map (λ p. codes "--   " ++ p) ps)
unfolding terminated
writes-terminated [] contents = sym (append-nil contents)
writes-terminated (p ∷ ps) contents =
    let line = codes "--   " ++ p in
    writes-terminated ps (write contents line)
    ∙ ap (λ c. c ++ terminated (map (λ p. codes "--   " ++ p) ps)) (write-terminated contents line)
    ∙ append_assoc contents (terminated (line ∷ [])) (terminated (map (λ p. codes "--   " ++ p) ps))
    ∙ ap (λ r. contents ++ r)
        (sym (terminated-append (line ∷ []) (map (λ p. codes "--   " ++ p) ps)))

block-terminated :
    (lines : List Text) (contents : Text)
    → foldl
        (λ c line. foldl (λ d p. write d (codes "--   " ++ p)) c (physical_lines line))
        contents
        lines
      ≡ contents ++ terminated (block_lines lines)
unfolding terminated
block-terminated [] contents = sym (append-nil contents)
block-terminated (line ∷ lines) contents =
    let these = map (λ p. codes "--   " ++ p) (physical_lines line) in
    block-terminated lines _
    ∙ ap (λ c. c ++ terminated (block_lines lines))
        (writes-terminated (physical_lines line) contents)
    ∙ append_assoc contents (terminated these) (terminated (block_lines lines))
    ∙ ap (λ r. contents ++ r) (sym (terminated-append these (block_lines lines)))

-- Each call appends its lines to the file.
pub log-terminated :
    (contents : Text) (e : Event) → IsClean e → log contents e ≡ contents ++ terminated (lines_of e)
unfolding log begin annotate record_block write
log-terminated contents (began sql) h =
    append_assoc contents (statement sql) newline
    ∙ ap (λ t. contents ++ (t ++ newline)) (sym h.0)
    ∙ ap (λ t. contents ++ t) (sym (one_query-terminated (splitlines (statement sql)) h.1))
log-terminated contents (ended message) h = write-terminated contents (annotation_prefix ++ message)
log-terminated contents (recorded title lines) h =
    let heading = codes "-- ==== " ++ title ++ codes " ====" in
    block-terminated lines (write contents heading)
    ∙ ap (λ c. c ++ terminated (block_lines lines)) (write-terminated contents heading)
    ∙ append_assoc contents (terminated (heading ∷ [])) (terminated (block_lines lines))
    ∙ ap (λ r. contents ++ r) (sym (terminated-append (heading ∷ []) (block_lines lines)))
