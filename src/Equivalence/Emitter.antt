-- ===== src/Equivalence/Emitter.antt =====
-- eqgen/equivalence/emitter.py: a built object as the SQL statements that create it. `none` is the
-- error of an expression that the spelling refuses, of a join with no condition, or of a query node
-- outside the emitter.
pub mod Walk
pub mod Steps
pub mod Order
pub mod Statements
mod Tests
use coa.Base.{
  ℕ, Bool, true, false, if◌then◌else◌, Option, none, some, List, [], ◌∷◌, ◌++◌, map, ◌>>=◌,
}
use coa.Base.Text.{Text, codes, text_eq, join}
use coa.Core.Catalog.{Named}
use coa.Ir.Expr.{ExpressionNode}
use coa.Ir.Render.{Spelling, expr}
use coa.Equivalence.Ast.{
  ProjectionItem, SelectClauses, JoinType, inner, left_outer, right_outer, full_outer, semi, cross,
  Source, QueryNode, select_query, union_all_query, except_all_query, intersect_all_query,
  join_query, cte_query, lateral_reproject_query, EquivalentRelation, Relations, two, more,
  signature_of_source, materialized_name, EqNode, source_node, query_node, relation_source,
  base_table_source,
}
use coa.Equivalence.Steps.{
  SetupStep, create_as_select, delete, insert_rows, insert_query, update, steps, ref_sql,
}

-- what every part gives, if each gives something
abbrev pub all_of : {A : Type 0} → List (Option A) → Option (List A)
all_of [] = some []
all_of (none ∷ os) = none
all_of (some a ∷ os) = all_of os >>= λ rest. some (a ∷ rest)

abbrev pub comma : Text
comma = codes ", "

abbrev pub join_keyword : JoinType → Text
join_keyword inner = codes "INNER"
join_keyword left_outer = codes "LEFT OUTER"
join_keyword right_outer = codes "RIGHT OUTER"
join_keyword full_outer = codes "FULL OUTER"
join_keyword semi = codes "SEMI"
join_keyword cross = codes "CROSS"

-- `SELECT * FROM <relation>` for each branch
abbrev pub branch_selects : Relations → List Text
branch_selects (two a b) =
    (codes "SELECT * FROM " ++ materialized_name a)
    ∷ (codes "SELECT * FROM " ++ materialized_name b)
    ∷ []
branch_selects (more a bs) = (codes "SELECT * FROM " ++ materialized_name a) ∷ branch_selects bs

abbrev pub hint_sql : Option Bool → Text
hint_sql (some true) = codes " MATERIALIZED"
hint_sql (some false) = codes " NOT MATERIALIZED"
hint_sql none = []

-- `<alias>.<name> AS <name>` for each name
abbrev pub reprojected : Text → List Named → Text
reprojected alias ns =
    join comma (map (λ n. alias ++ codes "." ++ n.alias ++ codes " AS " ++ n.alias) ns)

module _ (spelling : Spelling) where
  -- `_projection_sql`
  unfoldable pub projection_sql : ProjectionItem → Option Text
  unfolding expr text_eq
  projection_sql item = do
    rendered ← expr spelling item.expression
    some (if text_eq rendered item.alias then rendered else rendered ++ codes " AS " ++ item.alias)

  -- `f" <keyword> {expr}"`, where there is an expression
  unfoldable pub clause : Text → Option ExpressionNode → Option Text
  unfolding expr
  clause keyword none = some []
  clause keyword (some e) = do rendered ← expr spelling e; some (keyword ++ rendered)

  unfoldable pub keys_sql : List ExpressionNode → Option Text
  unfolding expr
  keys_sql es = do keys ← all_of (map (expr spelling) es); some (join comma keys)

  unfoldable pub key_clause : Text → Option (List ExpressionNode) → Option Text
  unfolding keys_sql
  key_clause keyword none = some []
  key_clause keyword (some es) = do keys ← keys_sql es; some (keyword ++ keys)

  unfoldable pub items_sql : List ProjectionItem → Option Text
  unfolding projection_sql
  items_sql items = do written ← all_of (map projection_sql items); some (join comma written)

  unfoldable pub select_list : Option (List ProjectionItem) → Option Text
  unfolding items_sql
  select_list none = some (codes "*")
  select_list (some items) = items_sql items

  -- the end of `visit_select_query`: an order goes into a subquery
  unfoldable pub ordered : Text → Text → Option (List ExpressionNode) → Option Text
  unfolding keys_sql
  ordered list body none = some body
  ordered list body (some es) = do
    order ← keys_sql es
    some (
        codes "SELECT "
        ++ list
        ++ codes " FROM ("
        ++ body
        ++ codes " ORDER BY "
        ++ order
        ++ codes ") AS eq_ord")

  -- ` ON <condition>`, which every join but a cross join needs
  unfoldable pub on_sql : JoinType → Option ExpressionNode → Option Text
  unfolding expr
  on_sql cross condition = some []
  on_sql _ none = none
  on_sql _ (some e) = do rendered ← expr spelling e; some (codes " ON " ++ rendered)

  -- `QueryRenderer.visit_…`
  unfoldable pub query_sql : QueryNode → Option Text
  unfolding select_list clause key_clause ordered items_sql on_sql ref_sql materialized_name join
      signature_of_source
  query_sql (select_query source projection predicate clauses) = do
    filtered ← clause (codes " WHERE ") predicate
    list ← select_list projection
    group ← key_clause (codes " GROUP BY ") clauses.group_by
    qualify ← clause (codes " QUALIFY ") clauses.qualify
    ordered list
        (codes "SELECT "
          ++ (if clauses.distinct then codes "DISTINCT " else [])
          ++ list
          ++ codes " FROM "
          ++ ref_sql source
          ++ filtered
          ++ group
          ++ qualify)
        clauses.order_by
  query_sql (union_all_query branches) = some (join (codes " UNION ALL ") (branch_selects branches))
  query_sql (except_all_query l r) = some (
      codes "SELECT * FROM "
      ++ materialized_name l
      ++ codes " EXCEPT ALL SELECT * FROM "
      ++ materialized_name r)
  query_sql (intersect_all_query l r) = some (
      codes "SELECT * FROM "
      ++ materialized_name l
      ++ codes " INTERSECT ALL SELECT * FROM "
      ++ materialized_name r)
  query_sql (join_query l r condition kind projection la ra predicate) = do
    list ← items_sql projection
    filtered ← clause (codes " WHERE ") predicate
    on ← on_sql kind condition
    some (
        codes "SELECT "
        ++ list
        ++ codes " FROM "
        ++ materialized_name l
        ++ codes " "
        ++ la
        ++ codes " "
        ++ join_keyword kind
        ++ codes " JOIN "
        ++ materialized_name r
        ++ codes " "
        ++ ra
        ++ on
        ++ filtered)
  query_sql (cte_query source name predicate materialize) = do
    filtered ← clause (codes " WHERE ") predicate
    some (
        codes "WITH "
        ++ name
        ++ codes " AS"
        ++ hint_sql materialize
        ++ codes " (SELECT * FROM "
        ++ ref_sql source
        ++ filtered
        ++ codes ") SELECT * FROM "
        ++ name)
  query_sql (lateral_reproject_query source source_alias lateral_alias) =
      let ns = signature_of_source source in
      some (
        codes "SELECT "
        ++ reprojected lateral_alias ns
        ++ codes " FROM "
        ++ ref_sql source
        ++ codes " "
        ++ source_alias
        ++ codes ", LATERAL (SELECT "
        ++ reprojected source_alias ns
        ++ codes ") AS "
        ++ lateral_alias)

  -- `<column> = <value>` for each assignment
  unfoldable pub sets_sql : List (Text × ExpressionNode) → Option Text
  unfolding expr
  sets_sql sets = do
    written ←
        all_of (map (λ s. expr spelling s.1 >>= λ value. some (s.0 ++ codes " = " ++ value)) sets)
    some (join comma written)

  abbrev column_list_sql : Option (List Text) → Text
  column_list_sql none = []
  column_list_sql (some columns) = codes " (" ++ join comma columns ++ codes ")"

  -- `SqlEmitter.visit_…`
  unfoldable pub step_sql : SetupStep → Option Text
  unfolding query_sql clause sets_sql join
  step_sql (create_as_select keyword name query) = do
    body ← query_sql query
    some (codes "CREATE " ++ keyword ++ codes " " ++ name ++ codes " AS " ++ body)
  step_sql (delete target predicate) = do
    filtered ← clause (codes " WHERE ") predicate
    some (codes "DELETE FROM " ++ target ++ filtered)
  step_sql (insert_rows target columns source_ref predicate column_list) = do
    filtered ← clause (codes " WHERE ") predicate
    some (
        codes "INSERT INTO "
        ++ target
        ++ column_list_sql column_list
        ++ codes " SELECT "
        ++ join comma columns
        ++ codes " FROM "
        ++ source_ref
        ++ filtered)
  step_sql (insert_query target query) = do
    body ← query_sql query
    some (codes "INSERT INTO " ++ target ++ codes " " ++ body)
  step_sql (update target assignments predicate) = do
    sets ← sets_sql assignments
    filtered ← clause (codes " WHERE ") predicate
    some (codes "UPDATE " ++ target ++ codes " SET " ++ sets ++ filtered)

  -- the statements of one node: only a relation has steps
  unfoldable pub node_statements : EqNode → List (Option Text)
  unfolding steps step_sql
  node_statements (source_node (relation_source r)) = map step_sql (steps r)
  node_statements (source_node (base_table_source t)) = []
  node_statements (query_node q) = []
