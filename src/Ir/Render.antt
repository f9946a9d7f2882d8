-- ===== src/Ir/Render.antt =====
-- eqgen/ir/render.py: an expression and a type name as SQL text. `none` is `UnsupportedForDialect`.
-- A spelling holds what an engine overrides: the name of a type, and a codec, a remainder and an
-- aggregate from the text of their argument.
pub mod Types
pub mod Engines
pub mod Brackets
pub mod Operands
pub mod Sound
pub mod TypeNames
pub mod Codecs
mod Tests
use coa.Base.{ℕ, Bool, true, false, if◌then◌else◌, Option, none, some, List, [], ◌∷◌, ◌++◌, ◌>>=◌}
use coa.Base.Text.{Text, codes, join}
use coa.Base.Decimal.{str}
use coa.Core.Types.{SqlType}
use coa.Ir.Expr.{
  ExpressionNode, Expressions, ComparisonOp, op_eq, op_ne, op_ge, BoolOperator, op_and, op_or,
  AggregateFunction, agg_min, agg_max, any_value, ValueCodec, WindowFunction, win_min, win_max,
  first_value, last_value, row_number, WindowFrameKind, rows, range, column_ref, int_literal,
  boolean_literal, raw_expr, typed_null, generated_predicate, comparison, bool_op, not_node,
  is_null_node, mod_node, case_node, aggregate_call, value_codec_round_trip, window_frame,
  window_call, nil, cons,
}

pub record Spelling : Type 0 where
  pub type_sql : SqlType → Option Text
  pub value_codec_sql : ValueCodec → Text → Option Text
  pub mod_sql : Text → ℕ → Text
  pub aggregate_sql : AggregateFunction → Text → Text

-- `isinstance(node, _ATOMIC)`
unfoldable pub is_atomic : ExpressionNode → Bool
is_atomic (column_ref name t alias) = true
is_atomic (int_literal n) = true
is_atomic (boolean_literal b) = true
is_atomic (raw_expr sql t) = true
is_atomic (typed_null t) = true
is_atomic (generated_predicate value) = true
is_atomic (mod_node e m) = true
is_atomic _ = false

abbrev pub comparison_sql : ComparisonOp → Text
comparison_sql op_eq = codes "="
comparison_sql op_ne = codes "<>"
comparison_sql op_ge = codes ">="

abbrev pub bool_sql : BoolOperator → Text
bool_sql op_and = codes "AND"
bool_sql op_or = codes "OR"

abbrev pub aggregate_name : AggregateFunction → Text
aggregate_name agg_min = codes "MIN"
aggregate_name agg_max = codes "MAX"
aggregate_name any_value = codes "ANY_VALUE"

abbrev pub window_name : WindowFunction → Text
window_name win_min = codes "MIN"
window_name win_max = codes "MAX"
window_name first_value = codes "FIRST_VALUE"
window_name last_value = codes "LAST_VALUE"
window_name row_number = codes "ROW_NUMBER"

abbrev pub frame_name : WindowFrameKind → Text
frame_name rows = codes "ROWS"
frame_name range = codes "RANGE"

-- `column_sql`
unfoldable pub column_sql : Text → Option Text → Text
column_sql name none = name
column_sql name (some relation_alias) = relation_alias ++ codes "." ++ name

abbrev pub bracket : Text → Text
bracket s = codes "(" ++ s ++ codes ")"

-- `_operand`, from the text of the node
unfoldable pub bracketed : ExpressionNode → Text → Text
unfolding is_atomic
bracketed node rendered = if is_atomic node then rendered else bracket rendered

-- the clauses of a window, each where there is one
abbrev pub key_clause : Text → List Text → List Text
key_clause keyword [] = []
key_clause keyword (key ∷ keys) = (keyword ++ join (codes ", ") (key ∷ keys)) ∷ []

abbrev pub frame_clause : Option WindowFrameKind → List Text
frame_clause none = []
frame_clause (some kind) =
    (frame_name kind ++ codes " BETWEEN UNBOUNDED PRECEDING AND UNBOUNDED FOLLOWING") ∷ []

unfoldable pub window_clauses : List Text → List Text → Option WindowFrameKind → Text
window_clauses partition_by order_by frame = join (codes " ") (
    key_clause (codes "PARTITION BY ") partition_by
    ++ key_clause (codes "ORDER BY ") order_by
    ++ frame_clause frame)

module _ (spelling : Spelling) where
  -- `typed_null_sql`
  unfoldable pub typed_null_sql : SqlType → Option Text
  typed_null_sql t = do
    name ← spelling.type_sql t
    some (codes "CAST(NULL AS " ++ name ++ codes ")")

  unfoldable mutual
    unfolding typed_null_sql bracketed column_sql window_clauses str join

    -- `Spelling.expr`, with `case_sql` and `window_sql`
    pub expr : ExpressionNode → Option Text
    expr (column_ref name t alias) = some (column_sql name alias)
    expr (int_literal n) = some (str n)
    expr (boolean_literal b) = some (if b then codes "TRUE" else codes "FALSE")
    expr (raw_expr sql t) = some sql
    expr (typed_null t) = typed_null_sql t
    expr (generated_predicate value) = some (bracket value)
    expr (comparison o l r) = do
      left ← expr l
      right ← expr r
      some (bracketed l left ++ codes " " ++ comparison_sql o ++ codes " " ++ bracketed r right)
    expr (bool_op o l r) = do
      left ← expr l
      right ← expr r
      some (bracketed l left ++ codes " " ++ bool_sql o ++ codes " " ++ bracketed r right)
    expr (not_node p) = do inner ← expr p; some (codes "NOT " ++ bracketed p inner)
    expr (is_null_node p negated) = do
      inner ← expr p
      some (
          bracketed p inner
          ++ codes " IS "
          ++ (if negated then codes "NOT " else [])
          ++ codes "NULL")
    expr (mod_node e m) = do inner ← expr e; some (spelling.mod_sql inner m)
    expr (case_node c t e ty) = do
      condition ← expr c
      then_sql ← expr t
      else_sql ← expr e
      some (
          codes "CASE WHEN "
          ++ condition
          ++ codes " THEN "
          ++ then_sql
          ++ codes " ELSE "
          ++ else_sql
          ++ codes " END")
    expr (aggregate_call f a ty) = do inner ← expr a; some (spelling.aggregate_sql f inner)
    expr (value_codec_round_trip c a ty) = do inner ← expr a; spelling.value_codec_sql c inner
    expr (window_frame kind) = none
    expr (window_call f arg p o frame ty) = do
      argument ← exprs arg
      partition_by ← exprs p
      order_by ← exprs o
      some (
          window_name f
          ++ bracket (join (codes ", ") argument)
          ++ codes " OVER "
          ++ bracket (window_clauses partition_by order_by frame))

    -- the texts of a tuple of expressions
    pub exprs : Expressions → Option (List Text)
    exprs nil = some []
    exprs (cons e es) = do first ← expr e; rest ← exprs es; some (first ∷ rest)
