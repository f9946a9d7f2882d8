-- ===== src/Sql/Engine.antt =====
-- The engine as the generator sees it: rows are lists of named values, an expression has a value at
-- a row, and a condition has one of three truth values. Each law is what the SQL standard says of
-- one node kind; the text of a generated predicate is the engine's business alone.
use coa.Base.{
  ℕ, suc, ◌==◌, Bool, true, false, ◌||◌, not, if◌then◌else◌, Option, none, some, List, [], ◌∷◌, ◌≡◌,
  ◌≢◌,
}
use coa.Base.Text.{Text, text_eq}
use coa.Core.Types.{SqlType}
use coa.Ir.Expr.{
  ExpressionNode, ComparisonOp, op_eq, op_ne, op_and, op_or, bool_op, not_node, is_null_node,
  comparison, int_literal, mod_node, case_node, typed_null, col,
}
use coa.Sql.Truth.{Truth, and3, or3, not3, of_bool, is_unknown}

-- a row's value under a name
unfoldable pub lookup {ℓ} : {V : Type ℓ} → Text → List (Text × V) → Option V
lookup name [] = none
lookup name ((n, v) ∷ r) = if text_eq n name then some v else lookup name r

pub record Engine : Type 1 where
  pub Value : Type 0
  pub null : Value
  pub is_null_value : Value → Bool
  -- the value of an expression at a row, given by the values of its columns
  pub value_of : List (Text × Value) → ExpressionNode → Value
  -- the truth value of an expression used as a condition
  pub truth_of : List (Text × Value) → ExpressionNode → Truth
  -- a value is NULL exactly when it is the null value
  pub null_is_null : is_null_value null ≡ true
  pub is_null_null : (v : Value) → is_null_value v ≡ true → v ≡ null
  -- a condition is unknown exactly when its value is NULL
  pub truth_unknown :
      (r : List (Text × Value)) (e : ExpressionNode)
      → is_unknown (truth_of r e) ≡ is_null_value (value_of r e)
  pub truth_and :
      (r : List (Text × Value)) (a b : ExpressionNode)
      → truth_of r (bool_op op_and a b) ≡ and3 (truth_of r a) (truth_of r b)
  pub truth_or :
      (r : List (Text × Value)) (a b : ExpressionNode)
      → truth_of r (bool_op op_or a b) ≡ or3 (truth_of r a) (truth_of r b)
  pub truth_not :
      (r : List (Text × Value)) (a : ExpressionNode) → truth_of r (not_node a) ≡ not3 (truth_of r a)
  pub truth_is_null :
      (r : List (Text × Value)) (a : ExpressionNode) (negated : Bool)
      → truth_of r (is_null_node a negated)
        ≡ of_bool
            (if negated then not (is_null_value (value_of r a)) else is_null_value (value_of r a))
  -- a comparison is unknown exactly when an operand is NULL, and `<>` is the negation of `=`
  pub compare_unknown :
      (r : List (Text × Value)) (o : ComparisonOp) (a b : ExpressionNode)
      → is_unknown (truth_of r (comparison o a b))
        ≡ (is_null_value (value_of r a) || is_null_value (value_of r b))
  pub compare_ne :
      (r : List (Text × Value)) (a b : ExpressionNode)
      → truth_of r (comparison op_ne a b) ≡ not3 (truth_of r (comparison op_eq a b))
  pub compare_literals :
      (r : List (Text × Value)) (m n : ℕ)
      → truth_of r (comparison op_eq (int_literal m) (int_literal n)) ≡ of_bool (m == n)
  pub literal_not_null :
      (r : List (Text × Value)) (n : ℕ) → is_null_value (value_of r (int_literal n)) ≡ false
  -- `MOD` by a number above zero is NULL exactly at NULL
  pub mod_null :
      (r : List (Text × Value)) (e : ExpressionNode) (m : ℕ)
      → is_null_value (value_of r (mod_node e (suc m))) ≡ is_null_value (value_of r e)
  pub value_typed_null : (r : List (Text × Value)) (t : SqlType) → value_of r (typed_null t) ≡ null
  pub value_case :
      (r : List (Text × Value)) (c a b : ExpressionNode) (t : SqlType)
      → truth_of r c ≡ Truth.yes_true
      → value_of r (case_node c a b t) ≡ value_of r a
  pub value_case_else :
      (r : List (Text × Value)) (c a b : ExpressionNode) (t : SqlType)
      → truth_of r c ≢ Truth.yes_true
      → value_of r (case_node c a b t) ≡ value_of r b
  -- a bare column is the value under its name
  pub value_col :
      (r : List (Text × Value)) (name : Text) (t : SqlType) (v : Value)
      → lookup name r ≡ some v
      → value_of r (col name t) ≡ v
