-- ===== src/Equivalence/Builders/Selects.antt =====
-- eqgen/equivalence/builders/selects.py, sources.py and the empty join of joins.py: the builders of
-- one defining query over one source.
use coa.Base.{Bool, Option, none, some, List, [], ◌∷◌, ◌++◌}
use coa.Base.Text.{Text, codes}
use coa.Core.Types.{integer, plain}
use coa.Core.Catalog.{signature}
use coa.Ir.Expr.{ExpressionNode, eq, int_lit, typed_null, col}
use coa.Equivalence.Ast.{
  ProjectionItem, Source, base_table_source, relation_source, EquivalentRelation, QueryNode,
  select_query, cte_query, lateral_reproject_query, join_query, no_clauses, view, left_outer,
  signature_of_source,
}
use coa.Equivalence.Constraints.{
  ConstraintSet, row_filter, current_filter, get_optional_constraint, rewrites, projection_of,
}
use coa.Equivalence.Context.{
  Environment, Gen, pure, decline, lift, ◌>>=◌, ◌>>◌, optional, mint, generate_name,
}
use coa.Equivalence.Builders.Base.{Ask, dispatch_source, passthrough_items}
use coa.Equivalence.Builders.Creates.{create_as_select}
use coa.Sql.Executor.{qualified_items}

-- a tuple that is not empty, or `None`
abbrev pub non_empty : {A : Type 0} → List A → Gen (List A)
non_empty [] = decline
non_empty (x ∷ xs) = pure (x ∷ xs)

-- `BaseTableSourceBuilder._build`
unfoldable pub build_base_table_source : Environment → Gen Source
build_base_table_source env = pure (base_table_source env.base_table)

-- `SelectStarQueryBuilder._build`
unfoldable pub build_select_star : Ask → ConstraintSet → Gen QueryNode
unfolding ◌>>=◌
build_select_star ask cs = do
  source ← dispatch_source ask cs
  pure (select_query source none (current_filter cs) no_clauses)

-- `ExplicitProjectionQueryBuilder._build`
unfoldable pub build_explicit_projection : Environment → Ask → ConstraintSet → Gen QueryNode
unfolding ◌>>=◌
build_explicit_projection env ask cs = do
  items ← non_empty (passthrough_items env.base_table)
  source ← dispatch_source ask cs
  pure (select_query source (some items) (current_filter cs) no_clauses)

-- `_build` of the three CTE builders, which differ in their label and their hint
unfoldable pub build_cte : Environment → Text → Option Bool → Ask → ConstraintSet → Gen QueryNode
unfolding ◌>>=◌ mint
build_cte env label materialize ask cs = do
  source ← dispatch_source ask cs
  name ← mint env label
  pure (cte_query source name (current_filter cs) materialize)

-- `LateralReprojectQueryBuilder._build`, with the aliases that `LateralReprojectQuery` defaults to
unfoldable pub build_lateral_reproject : Ask → Gen QueryNode
unfolding ◌>>=◌
build_lateral_reproject ask = do
  source ← dispatch_source ask []
  non_empty (signature_of_source source)
  pure (lateral_reproject_query source (codes "s") (codes "l"))

abbrev pub extra_item : Text → ProjectionItem
extra_item name = record {
  alias = name;
  expression = typed_null (plain integer);
  item_type = plain integer;
}

-- `AddDropColumnQueryBuilder._build`
unfoldable pub build_add_drop_column : Environment → Ask → Gen QueryNode
unfolding ◌>>=◌ generate_name
build_add_drop_column env ask = do
  base_items ← non_empty (passthrough_items env.base_table)
  source ← dispatch_source ask []
  extra ← generate_name (codes "eq_tmp_col")
  wider ←
      create_as_select env view
        (select_query source (some (base_items ++ extra_item extra ∷ [])) none no_clauses) none
  pure (select_query (relation_source wider) (some base_items) none no_clauses)

abbrev pub order_by_first : List ProjectionItem → List ExpressionNode
order_by_first [] = []
order_by_first (item ∷ items) = col item.alias item.item_type ∷ []

-- `OrderedScanQueryBuilder._build`
unfoldable pub build_ordered_scan : Environment → Ask → Gen QueryNode
unfolding ◌>>=◌
build_ordered_scan env ask = do
  items ← non_empty (passthrough_items env.base_table)
  source ← dispatch_source ask []
  pure (
      select_query source (some items) none
        (record no_clauses { order_by = some (order_by_first items) }))

-- `ProjectionQueryBuilder._build`; `get_constraint` finds the rewrite, which is required
unfoldable pub build_projection : Ask → ConstraintSet → Gen QueryNode
unfolding ◌>>=◌
build_projection ask cs = do
  source ← dispatch_source ask cs
  items ← lift (projection_of (get_optional_constraint rewrites cs))
  pure (select_query source (some items) (current_filter cs) no_clauses)

-- `WHERE 1 = 0`
abbrev pub empty_filter : ExpressionNode
empty_filter = eq (int_lit 1) (int_lit 0)

abbrev pub both : {A : Type 0} → Option A → Option A → Gen (A × A)
both (some a) (some b) = pure (a, b)
both _ _ = decline

-- both children are asked for before either is looked at
unfoldable pub ask_two :
    Ask → ConstraintSet → ConstraintSet → Gen (EquivalentRelation × EquivalentRelation)
unfolding ◌>>=◌ optional
ask_two ask cs ds = do
  left ← optional (ask.relation cs)
  right ← optional (ask.relation ds)
  both left right

-- `LeftJoinEmptyQueryBuilder._build`
unfoldable pub build_left_join_empty : Environment → Ask → Gen QueryNode
unfolding ◌>>=◌ ask_two
build_left_join_empty env ask = do
  non_empty (passthrough_items env.base_table)
  pair ← ask_two ask [] (row_filter empty_filter ∷ [])
  pure (
      join_query pair.0 pair.1 (some (eq (int_lit 1) (int_lit 1))) left_outer
        (qualified_items (codes "l") (signature env.base_table)) (codes "l") (codes "r") none)
