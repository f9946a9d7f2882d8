-- ===== src/Fuzz/Literals/Tests.antt =====
-- The literals of eqgen/dialects, of a text with a quote and a backslash.
use coa.Base.{true, none, some, [], ◌∷◌, ◌++◌, ◌≡◌, refl}
use coa.Base.Text.{Text, codes}
use coa.Fuzz.Samples.{string, infinite}
use coa.Fuzz.Literals.{
  quote, backslash, replace, string_sql, literal, clickhouse, clickhouse_literal, sqlite,
  sqlite_literal,
}
use coa.Fuzz.Literals.Reading.{read_string, escapes_of, read_string-literal}

-- `a'b\`
abbrev awkward : Text
awkward = b'a' ∷ quote ∷ b'b' ∷ backslash ∷ []

awkward_written :
    literal clickhouse (string awkward)
    ≡ some (quote ∷ b'a' ∷ quote ∷ quote ∷ b'b' ∷ backslash ∷ backslash ∷ quote ∷ [])
unfolding literal clickhouse_literal string_sql replace
awkward_written = refl

no_infinity : literal sqlite (infinite true) ≡ none
unfolding literal sqlite_literal
no_infinity = refl

read_string-literal_example :
    (sql : Text) × (literal clickhouse (string awkward) ≡ some sql)
    × (read_string (escapes_of clickhouse) (sql ++ codes ", 1)") ≡ some (awkward, codes ", 1)"))
read_string-literal_example = read_string-literal clickhouse awkward (codes ", 1)") refl
