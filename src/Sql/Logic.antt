-- ===== src/Sql/Logic.antt =====
-- What the expressions with a known constant value come to, at every row and under every engine.
use coa.Base.{◌≡◌, refl, Bool, true, false, not, ◌||◌, ◌&&◌, Option, none, some, List, ◌∙◌}
use coa.Base.Text.{Text}
use coa.Ir.Expr.{
  ExpressionNode, conjoin, determined_true, determined_false, not_node, op_eq, is_null, ne, eq,
  or_expr, mod_expr, int_lit,
}
use coa.Sql.Truth.{Truth, yes_true, yes_false, unknown, and3, or3, not3, of_bool, is_unknown, holds}
use coa.Sql.Engine.{Engine}

-- The truth of a filter that may be absent: no filter keeps every row.
abbrev pub filter_truth : (E : Engine) → List (Text × E.Value) → Option ExpressionNode → Truth
filter_truth E r none = yes_true
filter_truth E r (some p) = E.truth_of r p

-- Whether a `WHERE` with this filter keeps a row.
abbrev pub keeps : (E : Engine) → Option ExpressionNode → List (Text × E.Value) → Bool
keeps E p r = holds (filter_truth E r p)

or_table : (t : Truth) → or3 (or3 t (not3 t)) (of_bool (is_unknown t)) ≡ yes_true
or_table yes_true = refl
or_table yes_false = refl
or_table unknown = refl

and_table : (t : Truth) → and3 (and3 t (not3 t)) (of_bool (not (is_unknown t))) ≡ yes_false
and_table yes_true = refl
and_table yes_false = refl
and_table unknown = refl

pub holds-and3 : (s t : Truth) → holds (and3 s t) ≡ (holds s && holds t)
holds-and3 yes_true t = refl
holds-and3 yes_false t = refl
holds-and3 unknown yes_true = refl
holds-and3 unknown yes_false = refl
holds-and3 unknown unknown = refl

module _ (E : Engine) (r : List (Text × E.Value)) where
  -- Under every engine that keeps the laws of three-valued logic, `p OR NOT p OR p IS NULL` is true
  -- at every row, for every condition p.
  pub determined_true_is_true : (p : ExpressionNode) → E.truth_of r (determined_true p) ≡ yes_true
  unfolding determined_true
  determined_true_is_true p =
      rw (E.truth_or, E.truth_or, E.truth_not, E.truth_is_null, ← E.truth_unknown r p)
        (or_table (E.truth_of r p))

  -- Under every engine that keeps the laws of three-valued logic, `p AND NOT p AND p IS NOT NULL`
  -- is false at every row, for every condition p.
  determined_false_is_false : (p : ExpressionNode) → E.truth_of r (determined_false p) ≡ yes_false
  unfolding determined_false
  determined_false_is_false p =
      rw (E.truth_and, E.truth_and, E.truth_not, E.truth_is_null, ← E.truth_unknown r p)
        (and_table (E.truth_of r p))

  pub truth-conjoin :
      (current : Option ExpressionNode) (extra : ExpressionNode)
      → E.truth_of r (conjoin current extra) ≡ and3 (filter_truth E r current) (E.truth_of r extra)
  unfolding conjoin
  truth-conjoin none extra = refl
  truth-conjoin (some p) extra = E.truth_and r p extra

  pub keeps-conjoin :
      (current : Option ExpressionNode) (extra : ExpressionNode)
      → keeps E (some (conjoin current extra)) r ≡ (keeps E current r && keeps E (some extra) r)
  keeps-conjoin current extra = rw (truth-conjoin current extra) (holds-and3 _ _)

  -- `1 = 0` keeps no row.
  pub false_literal : holds (E.truth_of r (eq (int_lit 1) (int_lit 0))) ≡ false
  false_literal = rw (E.compare_literals r 1 0)

  -- Exactly one of a condition, its negation and its NULL test holds.
  pub three_way :
      (p : ExpressionNode)
      → (holds (E.truth_of r (is_null p)) ≡ is_unknown (E.truth_of r p))
        × (holds (E.truth_of r (not_node p)) ≡ holds (not3 (E.truth_of r p)))
  three_way p = (
    rw (E.truth_is_null, ← E.truth_unknown r p) (of_bool_holds (is_unknown (E.truth_of r p))),
    rw E.truth_not,
  )
    where
      of_bool_holds : (b : Bool) → holds (of_bool b) ≡ b
      of_bool_holds true = refl
      of_bool_holds false = refl

  -- The odd half keeps a row exactly when the even half does not.
  pub parity_halves :
      (k : ExpressionNode)
      → holds (E.truth_of r (or_expr (ne (mod_expr k 2) (int_lit 0)) (is_null k)))
        ≡ not (holds (E.truth_of r (eq (mod_expr k 2) (int_lit 0))))
  parity_halves k =
      rw (E.truth_or, E.truth_is_null, E.compare_ne)
        (odd (E.truth_of r (eq (mod_expr k 2) (int_lit 0))) (E.is_null_value (E.value_of r k))
          (E.compare_unknown r op_eq (mod_expr k 2) (int_lit 0) ∙ nulls))
    where
      or_false : (b : Bool) → (b || false) ≡ b
      or_false true = refl
      or_false false = refl

      nulls :
          (E.is_null_value (E.value_of r (mod_expr k 2))
            || E.is_null_value (E.value_of r (int_lit 0)))
          ≡ E.is_null_value (E.value_of r k)
      nulls = rw (E.literal_not_null r 0) (or_false _ ∙ E.mod_null r k 1)

      odd :
          (t : Truth) (n : Bool)
          → is_unknown t ≡ n
          → holds (or3 (not3 t) (of_bool n)) ≡ not (holds t)
      odd yes_true n e = rw (← e)
      odd yes_false n e = refl
      odd unknown n e = rw (← e)
