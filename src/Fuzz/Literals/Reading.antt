-- ===== src/Fuzz/Literals/Reading.antt =====
-- How an SQL engine reads a string literal, by the standard and, with escapes, as ClickHouse does,
-- and what it reads of the literals in eqgen/dialects.
use coa.Base.{
  ℕ, ◌==◌, Bool, true, false, ◌&&◌, if◌then◌else◌, Option, none, some, [], ◌∷◌, ◌++◌, ◌≡◌, refl,
  sym, ap, ◌∙◌, append_assoc, inl, inr, Bool-cases, arith,
}
use coa.Base.Text.{Text}
use coa.Fuzz.Samples.{string}
use coa.Fuzz.Literals.{
  quote, quoted, backslash, replace, string_sql, Dialect, postgres, duckdb, sqlite, mysql,
  clickhouse, cratedb, literal, postgres_literal, duckdb_literal, sqlite_literal, mysql_literal,
  clickhouse_literal, cratedb_literal,
}

-- where a reader stands inside a string literal
pub data Mode : Type 0 where
  within behind_quote behind_backslash : Mode

abbrev pub push : ℕ → Option (Text × Text) → Option (Text × Text)
push c none = none
push c (some (s, rest)) = some (c ∷ s, rest)

-- The string and what follows its literal. A quote ends it, two stand for one; with escapes, a
-- character behind a backslash stands for itself.
unfoldable pub read_from : Bool → Mode → Text → Option (Text × Text)
read_from escapes within [] = none
read_from escapes behind_quote [] = some ([], [])
read_from escapes behind_backslash [] = none
read_from escapes within (c ∷ s) =
    let ending = read_from escapes behind_quote s in
    let escaped = read_from escapes behind_backslash s in
    let plain = push c (read_from escapes within s) in
    if c == quote then ending else if escapes && (c == backslash) then escaped else plain
read_from escapes behind_quote (c ∷ s) =
    let more = push quote (read_from escapes within s) in
    if c == quote then more else some ([], c ∷ s)
read_from escapes behind_backslash (c ∷ s) = push c (read_from escapes within s)

unfoldable pub read_string : Bool → Text → Option (Text × Text)
unfolding read_from
read_string escapes [] = none
read_string escapes (c ∷ s) =
    let inside = read_from escapes within s in if c == quote then inside else none

-- whether the dialect's engine, as it is set up, takes a backslash for an escape
abbrev pub escapes_of : Dialect → Bool
escapes_of clickhouse = true
escapes_of _ = false

-- no second quote follows the literal
abbrev pub NoQuote : Text → Type 0
NoQuote [] = Unit
NoQuote (c ∷ s) = (c == quote) ≡ false

abbrev doubled : Text → Text
doubled = replace quote (quote ∷ quote ∷ [])

abbrev slashed : Text → Text
slashed = replace backslash (backslash ∷ backslash ∷ [])

eq_sound : (m n : ℕ) → (m == n) ≡ true → m ≡ n
eq_sound m n h = ground (arith, h)

read-end :
    (escapes : Bool) (rest : Text)
    → NoQuote rest
    → read_from escapes behind_quote rest ≡ some ([], rest)
unfolding read_from
read-end escapes [] h = refl
read-end escapes (c ∷ s) h = rw h refl

read-doubled :
    (s rest : Text)
    → NoQuote rest
    → read_from false within (doubled s ++ quote ∷ rest) ≡ some (s, rest)
unfolding read_from replace
read-doubled [] rest h = read-end false rest h
read-doubled (c ∷ s) rest h = elim (Bool-cases (c == quote)) [
  | inl same ↦ rw same (
      ap (push quote) (read-doubled s rest h)
      ∙ ap (λ d. some (d ∷ s, rest)) (sym (eq_sound c quote same)))
  | inr other ↦ rw (other, other) (ap (push c) (read-doubled s rest h))
]

read-slashed :
    (s rest : Text)
    → NoQuote rest
    → read_from true within (doubled (slashed s) ++ quote ∷ rest) ≡ some (s, rest)
unfolding read_from replace
read-slashed [] rest h = read-end true rest h
read-slashed (c ∷ s) rest h = elim (Bool-cases (c == backslash)) [
  | inl same ↦ rw same (
      ap (push backslash) (read-slashed s rest h)
      ∙ ap (λ d. some (d ∷ s, rest)) (sym (eq_sound c backslash same)))
  | inr other ↦ elim (Bool-cases (c == quote)) [
    | inl same ↦
        rw (other, same)
          (ap (push quote) (read-slashed s rest h)
            ∙ ap (λ d. some (d ∷ s, rest)) (sym (eq_sound c quote same)))
    | inr neither ↦ rw (other, neither, neither, other) (ap (push c) (read-slashed s rest h))
  ]
]

-- a literal around an escaped text
read-quoted :
    (escapes : Bool) (r s rest : Text)
    → read_from escapes within (r ++ quote ∷ rest) ≡ some (s, rest)
    → read_string escapes (quoted r ++ rest) ≡ some (s, rest)
unfolding read_string
read-quoted escapes r s rest h =
    ap (read_from escapes within) (append_assoc r (quote ∷ []) rest) ∙ h

-- Each of the six dialects has a literal for every text, and an engine that reads string literals
-- by the standard, or with a backslash as an escape in ClickHouse's case, reads the text from it
-- and stops right behind it, if no quote follows: no quote or backslash in a value ends the literal
-- early.
pub read_string-literal :
    (d : Dialect) (s rest : Text)
    → NoQuote rest
    → (sql : Text) × (literal d (string s) ≡ some sql)
      × (read_string (escapes_of d) (sql ++ rest) ≡ some (s, rest))
unfolding literal string_sql postgres_literal duckdb_literal sqlite_literal mysql_literal
    clickhouse_literal cratedb_literal
read_string-literal clickhouse s rest h =
    (quoted (doubled (slashed s)), refl, read-quoted true _ s rest (read-slashed s rest h))
read_string-literal postgres s rest h =
    (quoted (doubled s), refl, read-quoted false _ s rest (read-doubled s rest h))
read_string-literal duckdb s rest h =
    (quoted (doubled s), refl, read-quoted false _ s rest (read-doubled s rest h))
read_string-literal sqlite s rest h =
    (quoted (doubled s), refl, read-quoted false _ s rest (read-doubled s rest h))
read_string-literal mysql s rest h =
    (quoted (doubled s), refl, read-quoted false _ s rest (read-doubled s rest h))
read_string-literal cratedb s rest h =
    (quoted (doubled s), refl, read-quoted false _ s rest (read-doubled s rest h))
