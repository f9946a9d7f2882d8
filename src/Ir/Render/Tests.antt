-- ===== src/Ir/Render/Tests.antt =====
-- eqgen/ir/render.py on small expressions.
use coa.Base.{true, false, none, some, ◌≡◌, refl}
use coa.Base.Text.{Text, codes, join}
use coa.Base.Decimal.{str}
use coa.Core.Types.{integer, numeric, text, plain}
use coa.Ir.Expr.{
  ExpressionNode, col, raw_expr, int_lit, eq, mod_expr, and_expr, or_expr, not_expr, is_not_null,
  case_when, typed_null, value_codec_round_trip, base64, window_over, win_max, cons, nil, rows,
}
use coa.Ir.Render.{expr, exprs, is_atomic, bracketed, column_sql, typed_null_sql, window_clauses}
use coa.Ir.Render.Types.{duckdb_type}
use coa.Ir.Render.Engines.{
  postgres_spelling, duckdb_spelling, sqlite_spelling, mod_call, sqlite_codec,
}
use coa.Ir.Render.Brackets.{Tight, walk, no_space-Tight}
use coa.Ir.Render.Operands.{IsSpelt}
use coa.Ir.Render.Sound.{expr-brackets}
use coa.Ir.Render.Codecs.{postgres-KeepsBrackets}

abbrev c_int : ExpressionNode
c_int = col (codes "c_int") (plain integer)

abbrev either : ExpressionNode
either = or_expr (eq c_int (int_lit 1)) (eq (mod_expr c_int 2) (int_lit 0))

abbrev both : ExpressionNode
both = and_expr either (is_not_null c_int)

abbrev both_sql : Text
both_sql = codes "((c_int = 1) OR (MOD(c_int, 2) = 0)) AND (c_int IS NOT NULL)"

both_written : expr postgres_spelling both ≡ some both_sql
unfolding expr bracketed is_atomic column_sql str mod_call
both_written = refl

either-IsSpelt : IsSpelt both
unfolding IsSpelt
either-IsSpelt = ((((named, tt), tt), ((named, tt), tt)), (named, tt))
  where
    named : Tight (codes "c_int")
    named = no_space-Tight (codes "c_int") refl

expr-brackets_example :
    (walk false 0 both_sql ≡ some 0) × (walk true 0 (bracketed both both_sql) ≡ some 0)
expr-brackets_example =
    expr-brackets postgres_spelling postgres-KeepsBrackets both both_sql either-IsSpelt both_written

case_written :
    expr duckdb_spelling (
      case_when
        (not_expr (is_not_null c_int))
        c_int
        (typed_null (record { kind = numeric; precision = some 10; scale = some 2 }))
        (plain integer))
    ≡ some
        (codes "CASE WHEN NOT (c_int IS NOT NULL) THEN c_int ELSE CAST(NULL AS DECIMAL(10, 2)) END")
unfolding expr bracketed is_atomic column_sql typed_null_sql duckdb_type str
case_written = refl

window_written :
    expr sqlite_spelling (
      window_over win_max
        (cons c_int nil)
        (cons c_int nil)
        (plain integer)
        (cons c_int nil)
        (some rows))
    ≡ some (
        codes
          "MAX(c_int) OVER (PARTITION BY c_int ORDER BY c_int ROWS BETWEEN UNBOUNDED PRECEDING AND UNBOUNDED FOLLOWING)")
unfolding expr exprs column_sql window_clauses join
window_written = refl

-- SQLite has no base64 codec
base64_refused : expr sqlite_spelling (value_codec_round_trip base64 c_int (plain text)) ≡ none
unfolding expr sqlite_codec
base64_refused = refl

-- A raw expression in an operand is written with no brackets, so the text is another condition.
raw_operand :
    expr postgres_spelling
      (and_expr (raw_expr (codes "a OR b") (plain integer)) (eq c_int (int_lit 1)))
    ≡ some (codes "a OR b AND (c_int = 1)")
unfolding expr bracketed is_atomic column_sql str
raw_operand = refl
