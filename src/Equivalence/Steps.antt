-- ===== src/Equivalence/Steps.antt =====
-- eqgen/equivalence/objects.py, actions.py and ast.py: the steps that build a relation, and how each
-- node is named after `FROM`.
use coa.Base.{true, Option, none, some, List, [], ◌∷◌, map}
use coa.Base.Text.{Text, codes}
use coa.Core.Types.{integer, plain}
use coa.Core.Catalog.{get_sql_name}
use coa.Ir.Expr.{ExpressionNode, col, int_lit, ne}
use coa.Equivalence.Ast.{
  no_clauses, CreateKind, view, temporary_view, materialized_view, table, temporary_table,
  unlogged_table, Source, base_table_source, relation_source, QueryNode, select_query,
  EquivalentRelation, create_from_query, delete_reinsert_table, noop_update_table,
  tag_prune_delete_table, insert_extras_expansion, signature_of_query, materialized_name,
}

-- `TableObject` and `ViewObject`, which are written alike, and the three actions
pub data SetupStep : Type 0 where
  create_as_select : (keyword name : Text) → QueryNode → SetupStep
  delete : (target : Text) → Option ExpressionNode → SetupStep
  insert_rows :
      (target : Text)
      → (select_columns : List Text) → (source_ref : Text) → Option ExpressionNode
      → (column_list : Option (List Text)) → SetupStep
  insert_query : (target : Text) → QueryNode → SetupStep
  update : (target : Text) → List (Text × ExpressionNode) → Option ExpressionNode → SetupStep

-- the keyword that each class passes to `_create_as_select`
abbrev pub keyword_of : CreateKind → Text
keyword_of view = codes "VIEW"
keyword_of temporary_view = codes "TEMPORARY VIEW"
keyword_of materialized_view = codes "MATERIALIZED VIEW"
keyword_of table = codes "TABLE"
keyword_of temporary_table = codes "TEMPORARY TABLE"
keyword_of unlogged_table = codes "UNLOGGED TABLE"

-- `ref_sql`
unfoldable pub ref_sql : Source → Text
unfolding get_sql_name materialized_name
ref_sql (base_table_source t) = get_sql_name true t
ref_sql (relation_source r) = materialized_name r

-- `steps`, as each class's `build` fixes them
unfoldable pub steps : EquivalentRelation → List SetupStep
unfolding signature_of_query get_sql_name materialized_name
steps (create_from_query name kind query) = create_as_select (keyword_of kind) name query ∷ []
steps (delete_reinsert_table name query t predicate) =
    create_as_select (codes "TABLE") name query
    ∷ delete name predicate
    ∷ insert_rows name (map (λ n. n.alias) (signature_of_query query)) (get_sql_name true t)
        predicate none
    ∷ []
steps (noop_update_table name query assignments predicate) =
    create_as_select (codes "TABLE") name query ∷ update name assignments predicate ∷ []
steps (tag_prune_delete_table name child items tag_col keep_value) =
    delete (materialized_name child) (some (ne (col tag_col (plain integer)) (int_lit keep_value)))
    ∷ create_as_select (codes "VIEW") name
        (select_query (relation_source child) (some items) none no_clauses)
    ∷ []
steps (insert_extras_expansion child query) = insert_query (materialized_name child) query ∷ []
