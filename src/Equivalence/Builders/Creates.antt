-- ===== src/Equivalence/Builders/Creates.antt =====
-- eqgen/equivalence/builders/creates.py and dml_tables.py: the builders of named relations.
use mathlib.Core.Option
use coa.Base.{Option, none, some, List, [], ◌∷◌, map}
use coa.Base.Text.{Text, codes}
use coa.Core.Catalog.{Named}
use coa.Ir.Expr.{ExpressionNode, col, eq, mod_expr, int_lit}
use coa.Equivalence.Ast.{
  EquivalentRelation, QueryNode, select_query, relation_source, no_clauses, CreateKind, view, table,
  materialized_view, create_from_query, delete_reinsert_table, noop_update_table,
  signature_of_query,
}
use coa.Equivalence.Constraints.{
  ConstraintSet, get_optional_constraint, row_filters, rewrites, exposed_name_of,
}
use coa.Equivalence.Context.{Environment, Gen, pure, decline, ◌>>=◌, optional, mint}
use coa.Equivalence.Builders.Base.{Ask, make_set, generated, pick_integer_key}

-- the label under which a kind's names are minted
abbrev pub label_of : CreateKind → Text
label_of view = codes "view"
label_of CreateKind.temporary_view = codes "view"
label_of materialized_view = codes "view"
label_of _ = codes "table"

-- `exposed_name or namer.mint(label)`
abbrev pub named_or_minted : Environment → Text → Option Text → Gen Text
named_or_minted env label none = mint env label
named_or_minted env label (some []) = mint env label
named_or_minted env label (some (c ∷ name)) = pure (c ∷ name)

-- `CreateView.build` and its siblings, through `_create_as_select`
unfoldable pub create_as_select :
    Environment → CreateKind → QueryNode → Option Text → Gen EquivalentRelation
unfolding ◌>>=◌ mint
create_as_select env kind query exposed_name = do
  name ← named_or_minted env (label_of kind) exposed_name
  pure (create_from_query name kind query)

-- `_wrap`: a materialized view reads a permanent table that is written first
unfoldable pub wrap : Environment → CreateKind → QueryNode → Option Text → Gen EquivalentRelation
unfolding ◌>>=◌ create_as_select
wrap env materialized_view query exposed_name = do
  body ← create_as_select env table query none
  create_as_select env materialized_view (select_query (relation_source body) none none no_clauses)
      exposed_name
wrap env kind query exposed_name = create_as_select env kind query exposed_name

-- `CreateFromQueryBuilder._build`
unfoldable pub build_create :
    Environment → CreateKind → Ask → ConstraintSet → Gen EquivalentRelation
unfolding ◌>>=◌ make_set
build_create env kind ask cs = do
  forwarded ←
      make_set (get_optional_constraint row_filters cs ∷ get_optional_constraint rewrites cs ∷ [])
  query ← ask.query forwarded
  wrap env kind query (exposed_name_of cs)

abbrev pub odd_key : Environment → Option ExpressionNode → Gen (Option ExpressionNode)
odd_key env (some p) = pure (some p)
odd_key env none = do
  key ← optional (pick_integer_key env)
  pure (Option.map (λ c. eq (mod_expr (col c.name c.data_type) 2) (int_lit 1)) key)

-- `_mutation_predicate`: none means that every row is written
unfoldable pub mutation_predicate : Environment → Gen (Option ExpressionNode)
unfolding ◌>>=◌ optional
mutation_predicate env = do predicate ← optional (generated env); odd_key env predicate

-- `DeleteReinsertTableBuilder._build`
unfoldable pub build_delete_reinsert : Environment → Ask → ConstraintSet → Gen EquivalentRelation
unfolding ◌>>=◌ make_set mint
build_delete_reinsert env ask cs = do
  query ← ask.query []
  predicate ← mutation_predicate env
  name ← named_or_minted env (codes "table") (exposed_name_of cs)
  pure (delete_reinsert_table name query env.base_table predicate)

abbrev pub identity_assignments : List Named → List (Text × ExpressionNode)
identity_assignments = map (λ n. (n.alias, col n.alias n.target))

abbrev pub build_noop_update_of :
    Environment → ConstraintSet → QueryNode → List Named → Gen EquivalentRelation
build_noop_update_of env cs query [] = decline
build_noop_update_of env cs query (n ∷ ns) = do
  predicate ← mutation_predicate env
  name ← named_or_minted env (codes "table") (exposed_name_of cs)
  pure (noop_update_table name query (identity_assignments (n ∷ ns)) predicate)

-- `NoopUpdateTableBuilder._build`
unfoldable pub build_noop_update : Environment → Ask → ConstraintSet → Gen EquivalentRelation
unfolding ◌>>=◌ mint
build_noop_update env ask cs = do
  query ← ask.query []
  build_noop_update_of env cs query (signature_of_query query)
