-- ===== src/Sql/Tests.antt =====
-- The determined conditions at a row in which the condition is unknown.
use coa.Base.{none, [], ◌∷◌, ◌≡◌}
use coa.Base.Text.{codes}
use coa.Ir.Expr.{ExpressionNode, generated_predicate, determined_true}
use coa.Sql.Truth.{yes_true}
use coa.Sql.Executor.{Row}
use coa.Sql.Reference.{reference}
use coa.Sql.Logic.{determined_true_is_true}

unfoldable null_row : Row reference
unfolding reference
null_row = (codes "k", none) ∷ []

abbrev condition : ExpressionNode
condition = generated_predicate (codes "k")

determined_true_is_true_example : reference.truth_of null_row (determined_true condition) ≡ yes_true
determined_true_is_true_example = determined_true_is_true reference null_row condition
