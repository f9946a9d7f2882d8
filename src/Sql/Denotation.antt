-- ===== src/Sql/Denotation.antt =====
-- The rows that a tree of rewrites holds once an engine has run its statements: each relation's
-- statements in their order, over the rows of its inputs.
use coa.Base.{none, some, List}
use coa.Core.Types.{integer, plain}
use coa.Ir.Expr.{col, ne, int_lit}
use coa.Equivalence.Ast.{
  Source, base_table_source, relation_source, QueryNode, select_query, union_all_query,
  except_all_query, intersect_all_query, join_query, cte_query, lateral_reproject_query,
  EquivalentRelation, create_from_query, delete_reinsert_table, noop_update_table,
  tag_prune_delete_table, insert_extras_expansion, Relations, two, more, no_clauses,
  signature_of_source, signature_of_query,
}
use coa.Sql.Engine.{Engine}
use coa.Sql.Executor.{Executor, Row, names, bare_items}

module _ {E : Engine} (X : Executor E) (base : List (Row E)) where
  unfoldable mutual
    pub rows_of_source : Source → List (Row E)
    rows_of_source (base_table_source t) = base
    rows_of_source (relation_source r) = rows_of_relation r

    pub rows_of_query : QueryNode → List (Row E)
    rows_of_query (select_query s items p c) = X.select items p c (rows_of_source s)
    rows_of_query (union_all_query bs) = rows_of_branches bs
    rows_of_query (except_all_query l r) = X.except_all (rows_of_relation l) (rows_of_relation r)
    rows_of_query (intersect_all_query l r) =
        X.intersect_all (rows_of_relation l) (rows_of_relation r)
    rows_of_query (join_query l r c j items la ra p) =
        X.join j c items la ra p (rows_of_relation l) (rows_of_relation r)
    rows_of_query (cte_query s n p m) = X.select none p no_clauses (rows_of_source s)
    rows_of_query (lateral_reproject_query s a b) =
        X.lateral (names (signature_of_source s)) (rows_of_source s)

    pub rows_of_relation : EquivalentRelation → List (Row E)
    rows_of_relation (create_from_query n k q) = rows_of_query q
    rows_of_relation (delete_reinsert_table n q t p) =
        X.insert (X.delete p (rows_of_query q))
          (X.select (some (bare_items (signature_of_query q))) p no_clauses base)
    rows_of_relation (noop_update_table n q sets p) = X.update sets p (rows_of_query q)
    rows_of_relation (tag_prune_delete_table n c items tag keep) =
        X.select (some items) none no_clauses
          (X.delete (some (ne (col tag (plain integer)) (int_lit keep))) (rows_of_relation c))
    rows_of_relation (insert_extras_expansion c q) = X.insert (rows_of_relation c) (rows_of_query q)

    pub rows_of_branches : Relations → List (Row E)
    rows_of_branches (two a b) = X.union_all (rows_of_relation a) (rows_of_relation b)
    rows_of_branches (more a bs) = X.union_all (rows_of_relation a) (rows_of_branches bs)
