-- ===== src/Ir/Expr.antt =====
-- eqgen/ir/expr.py: one constructor for each expression class, and the constructors that builders
-- call. A literal's value and a modulus are natural numbers: every call in the program passes one.
use coa.Base.{ℕ, Bool, true, false, Option, none, some}
use coa.Base.Text.{Text}
use coa.Core.Types.{SqlType, integer, boolean, plain}

pub data AggregateFunction : Type 0 where
  agg_min agg_max any_value : AggregateFunction

pub data ValueCodec : Type 0 where
  hex base64 json_pack : ValueCodec

pub data WindowFunction : Type 0 where
  win_min win_max first_value last_value row_number : WindowFunction

pub data WindowFrameKind : Type 0 where
  rows range : WindowFrameKind

-- the operators that the constructors below pass, with the text that the node holds
pub data ComparisonOp : Type 0 where
  op_eq op_ne op_ge : ComparisonOp

pub data BoolOperator : Type 0 where
  op_and op_or : BoolOperator

mutual
  pub data ExpressionNode : Type 0 where
    column_ref : Text → SqlType → Option Text → ExpressionNode
    int_literal : ℕ → ExpressionNode
    boolean_literal : Bool → ExpressionNode
    raw_expr : Text → SqlType → ExpressionNode
    typed_null : SqlType → ExpressionNode
    generated_predicate : Text → ExpressionNode
    comparison : ComparisonOp → ExpressionNode → ExpressionNode → ExpressionNode
    bool_op : BoolOperator → ExpressionNode → ExpressionNode → ExpressionNode
    not_node : ExpressionNode → ExpressionNode
    is_null_node : ExpressionNode → Bool → ExpressionNode
    mod_node : ExpressionNode → ℕ → ExpressionNode
    case_node : ExpressionNode → ExpressionNode → ExpressionNode → SqlType → ExpressionNode
    aggregate_call : AggregateFunction → ExpressionNode → SqlType → ExpressionNode
    value_codec_round_trip : ValueCodec → ExpressionNode → SqlType → ExpressionNode
    window_frame : WindowFrameKind → ExpressionNode
    window_call :
        WindowFunction
        → Expressions
        → Expressions
        → Expressions
        → Option WindowFrameKind
        → SqlType
        → ExpressionNode

  -- a tuple of expressions; the optional argument of a window call is one of length 0 or 1
  pub data Expressions : Type 0 where
    nil : Expressions
    cons : ExpressionNode → Expressions → Expressions

-- `data_type`; a window frame is a clause and raises `TypeError`
unfoldable pub data_type : ExpressionNode → Option SqlType
data_type (column_ref name t alias) = some t
data_type (int_literal n) = some (plain integer)
data_type (boolean_literal b) = some (plain boolean)
data_type (raw_expr sql t) = some t
data_type (typed_null t) = some t
data_type (generated_predicate value) = some (plain boolean)
data_type (comparison o l r) = some (plain boolean)
data_type (bool_op o l r) = some (plain boolean)
data_type (not_node p) = some (plain boolean)
data_type (is_null_node p negated) = some (plain boolean)
data_type (mod_node e m) = data_type e
data_type (case_node c t e ty) = some ty
data_type (aggregate_call f a ty) = some ty
data_type (value_codec_round_trip c a ty) = some ty
data_type (window_frame kind) = none
data_type (window_call f a p o frame ty) = some ty

abbrev pub col : Text → SqlType → ExpressionNode
col name t = column_ref name t none

abbrev pub qualified_col : Text → Text → SqlType → ExpressionNode
qualified_col relation_alias name t = column_ref name t (some relation_alias)

abbrev pub int_lit : ℕ → ExpressionNode
int_lit = int_literal

abbrev pub bool_lit : Bool → ExpressionNode
bool_lit = boolean_literal

abbrev pub eq : ExpressionNode → ExpressionNode → ExpressionNode
eq = comparison op_eq

abbrev pub ne : ExpressionNode → ExpressionNode → ExpressionNode
ne = comparison op_ne

abbrev pub ge : ExpressionNode → ExpressionNode → ExpressionNode
ge = comparison op_ge

abbrev pub mod_expr : ExpressionNode → ℕ → ExpressionNode
mod_expr = mod_node

abbrev pub and_expr : ExpressionNode → ExpressionNode → ExpressionNode
and_expr = bool_op op_and

abbrev pub or_expr : ExpressionNode → ExpressionNode → ExpressionNode
or_expr = bool_op op_or

abbrev pub not_expr : ExpressionNode → ExpressionNode
not_expr = not_node

abbrev pub is_null : ExpressionNode → ExpressionNode
is_null e = is_null_node e false

abbrev pub is_not_null : ExpressionNode → ExpressionNode
is_not_null e = is_null_node e true

abbrev pub case_when : ExpressionNode → ExpressionNode → ExpressionNode → SqlType → ExpressionNode
case_when = case_node

abbrev pub any_value_of : ExpressionNode → SqlType → ExpressionNode
any_value_of arg t = aggregate_call any_value arg t

abbrev pub window_over :
    WindowFunction
    → Expressions
    → Expressions
    → SqlType
    → Expressions
    → Option WindowFrameKind
    → ExpressionNode
window_over f arg partition_by t order_by frame_spec =
    window_call f arg partition_by order_by frame_spec t

-- `row_number`: the number of a row, in an order that need not be total
abbrev pub row_number_over : Expressions → ExpressionNode
row_number_over order_by = window_call row_number nil nil order_by none (plain integer)

-- `AND` one more condition onto one that may be absent.
unfoldable pub conjoin : Option ExpressionNode → ExpressionNode → ExpressionNode
conjoin none extra = extra
conjoin (some existing) extra = and_expr existing extra

-- `p OR NOT p OR p IS NULL`
unfoldable pub determined_true : ExpressionNode → ExpressionNode
determined_true p = or_expr (or_expr p (not_expr p)) (is_null p)

-- `p AND NOT p AND p IS NOT NULL`
unfoldable pub determined_false : ExpressionNode → ExpressionNode
determined_false p = and_expr (and_expr p (not_expr p)) (is_not_null p)
