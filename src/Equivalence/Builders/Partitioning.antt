-- ===== src/Equivalence/Builders/Partitioning.antt =====
-- eqgen/equivalence/builders/partitioning.py: the splits of the rows into branches, and the set
-- operations that give a relation back.
use coa.Base.{[], ◌∷◌}
use coa.Ir.Expr.{
  ExpressionNode, conjoin, col, eq, ne, mod_expr, int_lit, or_expr, not_expr, is_null,
}
use coa.Equivalence.Ast.{
  EquivalentRelation, QueryNode, union_all_query, except_all_query, intersect_all_query, two, more,
}
use coa.Equivalence.Constraints.{ConstraintSet, row_filter, current_filter}
use coa.Equivalence.Context.{Environment, Gen, pure, ◌>>=◌}
use coa.Equivalence.Builders.Base.{Ask, generated, pick_integer_key}
use coa.Equivalence.Builders.Selects.{ask_two, empty_filter}

-- one branch: the inbound filter and the branch's own condition
unfoldable pub ask_branch : Ask → ConstraintSet → ExpressionNode → Gen EquivalentRelation
ask_branch ask cs branch_predicate =
    ask.relation (row_filter (conjoin (current_filter cs) branch_predicate) ∷ [])

abbrev pub even_half : ExpressionNode → ExpressionNode
even_half key = eq (mod_expr key 2) (int_lit 0)

abbrev pub odd_half : ExpressionNode → ExpressionNode
odd_half key = or_expr (ne (mod_expr key 2) (int_lit 0)) (is_null key)

-- `PartitionUnionQueryBuilder._build`
unfoldable pub build_partition_union : Environment → Ask → ConstraintSet → Gen QueryNode
unfolding ◌>>=◌
build_partition_union env ask cs = do
  key ← pick_integer_key env
  even ← ask_branch ask cs (even_half (col key.name key.data_type))
  odd ← ask_branch ask cs (odd_half (col key.name key.data_type))
  pure (union_all_query (two even odd))

-- `TlpPartitionUnionQueryBuilder._build`
unfoldable pub build_tlp_partition_union : Environment → Ask → ConstraintSet → Gen QueryNode
unfolding ◌>>=◌
build_tlp_partition_union env ask cs = do
  predicate ← generated env
  where_true ← ask_branch ask cs predicate
  where_false ← ask_branch ask cs (not_expr predicate)
  where_null ← ask_branch ask cs (is_null predicate)
  pure (union_all_query (more where_true (two where_false where_null)))

-- `UnionEmptyRoundTripBuilder._build`
unfoldable pub build_union_empty : Ask → Gen QueryNode
unfolding ◌>>=◌
build_union_empty ask = do
  pair ← ask_two ask [] (row_filter empty_filter ∷ [])
  pure (union_all_query (two pair.0 pair.1))

-- `ExceptEmptyRoundTripBuilder._build`
unfoldable pub build_except_empty : Ask → Gen QueryNode
unfolding ◌>>=◌
build_except_empty ask = do
  pair ← ask_two ask [] (row_filter empty_filter ∷ [])
  pure (except_all_query pair.0 pair.1)

-- `IntersectSelfRoundTripBuilder._build`
unfoldable pub build_intersect_self : Ask → Gen QueryNode
unfolding ◌>>=◌
build_intersect_self ask = do pair ← ask_two ask [] []; pure (intersect_all_query pair.0 pair.1)
