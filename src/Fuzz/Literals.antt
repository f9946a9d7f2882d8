-- ===== src/Fuzz/Literals.antt =====
-- `literal` of the adapters in eqgen/dialects, for the values that a sampled row holds, and
-- `sample_rows_sql` of eqgen/fuzz/journal.py. `none` is the `ValueError` of an engine that has no
-- infinity. No sampled value is NaN.
pub mod Reading
mod Tests
use coa.Base.{
  ℕ, ◌==◌, Bool, true, false, if◌then◌else◌, Option, none, some, List, [], ◌∷◌, ◌++◌, map,
}
use coa.Base.Text.{Text, codes, join}
use coa.Base.Decimal.{str}
use coa.Fuzz.Samples.{Cell, null, truth, number, string, infinite, key}

-- the code of `'`
abbrev pub quote : ℕ
quote = 39

-- the code of `\`
abbrev pub backslash : ℕ
backslash = 92

-- `s.replace(c, by)`, for a single character
unfoldable pub replace : ℕ → Text → Text → Text
replace c by [] = []
replace c by (d ∷ s) = let rest = replace c by s in if d == c then by ++ rest else d ∷ rest

abbrev pub quoted : Text → Text
quoted s = quote ∷ s ++ quote ∷ []

-- `"'" + s.replace("'", "''") + "'"`
unfoldable pub string_sql : Text → Text
unfolding replace
string_sql s = quoted (replace quote (quote ∷ quote ∷ []) s)

abbrev pub by_truth : Bool → Text → Text → Text
by_truth b yes_text no_text = if b then yes_text else no_text

abbrev pub signed_infinity : Bool → Text
signed_infinity positive = by_truth positive (codes "'Infinity'") (codes "'-Infinity'")

unfoldable pub postgres_literal : Cell → Option Text
unfolding string_sql str
postgres_literal null = some (codes "NULL")
postgres_literal (truth b) = some (by_truth b (codes "TRUE") (codes "FALSE"))
postgres_literal (infinite positive) = some (signed_infinity positive ++ codes "::float8")
postgres_literal (number t) = some t
postgres_literal (key n) = some (str n)
postgres_literal (string s) = some (string_sql s)

unfoldable pub duckdb_literal : Cell → Option Text
unfolding string_sql str
duckdb_literal null = some (codes "NULL")
duckdb_literal (truth b) = some (by_truth b (codes "TRUE") (codes "FALSE"))
duckdb_literal (infinite positive) = some (signed_infinity positive ++ codes "::DOUBLE")
duckdb_literal (number t) = some t
duckdb_literal (key n) = some (str n)
duckdb_literal (string s) = some (string_sql s)

unfoldable pub sqlite_literal : Cell → Option Text
unfolding string_sql str
sqlite_literal null = some (codes "NULL")
sqlite_literal (truth b) = some (by_truth b (codes "1") (codes "0"))
sqlite_literal (infinite positive) = none
sqlite_literal (number t) = some t
sqlite_literal (key n) = some (str n)
sqlite_literal (string s) = some (string_sql s)

unfoldable pub mysql_literal : Cell → Option Text
unfolding string_sql str
mysql_literal null = some (codes "NULL")
mysql_literal (truth b) = some (by_truth b (codes "1") (codes "0"))
mysql_literal (infinite positive) = none
mysql_literal (number t) = some t
mysql_literal (key n) = some (str n)
mysql_literal (string s) = some (string_sql s)

-- `repr` of an infinity is `inf` or `-inf`
unfoldable pub clickhouse_literal : Cell → Option Text
unfolding string_sql replace str
clickhouse_literal null = some (codes "NULL")
clickhouse_literal (truth b) = some (by_truth b (codes "true") (codes "false"))
clickhouse_literal (infinite positive) = some (by_truth positive (codes "inf") (codes "-inf"))
clickhouse_literal (number t) = some t
clickhouse_literal (key n) = some (str n)
clickhouse_literal (string s) = some (string_sql (replace backslash (backslash ∷ backslash ∷ []) s))

unfoldable pub cratedb_literal : Cell → Option Text
unfolding string_sql str
cratedb_literal null = some (codes "NULL")
cratedb_literal (truth b) = some (by_truth b (codes "TRUE") (codes "FALSE"))
cratedb_literal (infinite positive) = some (signed_infinity positive ++ codes "::double precision")
cratedb_literal (number t) = some t
cratedb_literal (key n) = some (str n)
cratedb_literal (string s) = some (string_sql s)

pub data Dialect : Type 0 where
  postgres duckdb sqlite mysql clickhouse cratedb : Dialect

-- the adapter's `literal`
unfoldable pub literal : Dialect → Cell → Option Text
literal postgres = postgres_literal
literal duckdb = duckdb_literal
literal sqlite = sqlite_literal
literal mysql = mysql_literal
literal clickhouse = clickhouse_literal
literal cratedb = cratedb_literal
