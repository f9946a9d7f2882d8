-- ===== src/Equivalence/Ast.antt =====
-- eqgen/equivalence/ast.py: sources, defining queries and named relations. A node's inputs are its
-- fields; the name that `build` fixes for a relation is the first field of its constructor.
use coa.Base.{ℕ, Bool, Option, none, some, List, map}
use coa.Base.Text.{Text}
use coa.Core.Types.{SqlType}
use coa.Core.Catalog.{Named, Table, signature}
use coa.Ir.Expr.{ExpressionNode}

pub record ProjectionItem : Type 0 where
  pub alias : Text
  pub expression : ExpressionNode
  pub item_type : SqlType

-- The keyword arguments of `SelectQuery` behind its predicate.
pub record SelectClauses : Type 0 where
  pub distinct : Bool
  pub group_by : Option (List ExpressionNode)
  pub qualify : Option ExpressionNode
  pub order_by : Option (List ExpressionNode)

abbrev pub no_clauses : SelectClauses
no_clauses = record { distinct = Bool.false; group_by = none; qualify = none; order_by = none }

-- The six `CREATE <keyword> <name> AS <query>` classes.
pub data CreateKind : Type 0 where
  view temporary_view materialized_view table temporary_table unlogged_table : CreateKind

pub data JoinType : Type 0 where
  inner left_outer right_outer full_outer semi cross : JoinType

mutual
  -- `EquivalentSource`: what can stand after `FROM`
  pub data Source : Type 0 where
    base_table_source : Table → Source
    relation_source : EquivalentRelation → Source

  pub data QueryNode : Type 0 where
    select_query :
        Source → Option (List ProjectionItem) → Option ExpressionNode → SelectClauses → QueryNode
    union_all_query : Relations → QueryNode
    except_all_query : EquivalentRelation → EquivalentRelation → QueryNode
    intersect_all_query : EquivalentRelation → EquivalentRelation → QueryNode
    join_query :
        EquivalentRelation
        → EquivalentRelation
        → Option ExpressionNode
        → JoinType
        → List ProjectionItem
        → Text
        → Text
        → Option ExpressionNode
        → QueryNode
    cte_query : Source → Text → Option ExpressionNode → Option Bool → QueryNode
    lateral_reproject_query : Source → Text → Text → QueryNode

  pub data EquivalentRelation : Type 0 where
    create_from_query : Text → CreateKind → QueryNode → EquivalentRelation
    delete_reinsert_table : Text → QueryNode → Table → Option ExpressionNode → EquivalentRelation
    noop_update_table :
        Text → QueryNode → List (Text × ExpressionNode) → Option ExpressionNode → EquivalentRelation
    tag_prune_delete_table :
        Text → EquivalentRelation → List ProjectionItem → Text → ℕ → EquivalentRelation
    insert_extras_expansion : EquivalentRelation → QueryNode → EquivalentRelation

  -- the branches of a `UNION ALL`, which asserts that there are at least two
  pub data Relations : Type 0 where
    two : EquivalentRelation → EquivalentRelation → Relations
    more : EquivalentRelation → Relations → Relations

abbrev pub named_item : ProjectionItem → Named
named_item item = record { alias = item.alias; target = item.item_type }

-- `get_signature` of each class
unfoldable mutual
  pub signature_of_source : Source → List Named
  signature_of_source (base_table_source t) = signature t
  signature_of_source (relation_source r) = signature_of_relation r

  pub signature_of_query : QueryNode → List Named
  signature_of_query (select_query s none p c) = signature_of_source s
  signature_of_query (select_query s (some items) p c) = map named_item items
  signature_of_query (union_all_query bs) = signature_of_branches bs
  signature_of_query (except_all_query l r) = signature_of_relation l
  signature_of_query (intersect_all_query l r) = signature_of_relation l
  signature_of_query (join_query l r c j items la ra p) = map named_item items
  signature_of_query (cte_query s n p m) = signature_of_source s
  signature_of_query (lateral_reproject_query s a b) = signature_of_source s

  pub signature_of_relation : EquivalentRelation → List Named
  signature_of_relation (create_from_query n k q) = signature_of_query q
  signature_of_relation (delete_reinsert_table n q t p) = signature_of_query q
  signature_of_relation (noop_update_table n q a p) = signature_of_query q
  signature_of_relation (tag_prune_delete_table n c items t k) = map named_item items
  signature_of_relation (insert_extras_expansion c q) = signature_of_relation c

  pub signature_of_branches : Relations → List Named
  signature_of_branches (two a b) = signature_of_relation a
  signature_of_branches (more a bs) = signature_of_relation a

-- `materialized_name`; an expansion by `INSERT` exposes its child's name
unfoldable pub materialized_name : EquivalentRelation → Text
materialized_name (create_from_query n k q) = n
materialized_name (delete_reinsert_table n q t p) = n
materialized_name (noop_update_table n q a p) = n
materialized_name (tag_prune_delete_table n c items t k) = n
materialized_name (insert_extras_expansion c q) = materialized_name c

-- a node as the factory hands it out
pub data EqNode : Type 0 where
  source_node : Source → EqNode
  query_node : QueryNode → EqNode
