-- ===== src/Sql/Executor.antt =====
-- What an engine's statements do to rows, as an interface: each clause by the bag of rows that the
-- SQL standard gives it. Rows come in no order, so every law is up to permutation.
use mathlib.Core.List.{Perm, Mem}
use coa.Base.{not, Option, none, some, List, [], ◌∷◌, ◌++◌, map, filter, if◌then◌else◌}
use coa.Base.Text.{Text}
use coa.Core.Catalog.{Named}
use coa.Ir.Expr.{ExpressionNode, col, qualified_col}
use coa.Equivalence.Ast.{ProjectionItem, SelectClauses, no_clauses, JoinType, left_outer}
use coa.Sql.Engine.{Engine, lookup}
use coa.Sql.Logic.{keeps}

abbrev pub names : List Named → List Text
names = map (λ n. n.alias)

-- `<alias>.<column> AS <column>` for each column
abbrev pub qualified_items : Text → List Named → List ProjectionItem
qualified_items la = map (λ n. record {
  alias = n.alias;
  expression = qualified_col la n.alias n.target;
  item_type = n.target;
})

-- `SELECT <columns>`, as an `INSERT` reads them back from the base table
abbrev pub bare_items : List Named → List ProjectionItem
bare_items =
    map (λ n. record { alias = n.alias; expression = col n.alias n.target; item_type = n.target })

abbrev pub Row : Engine → Type 0
Row E = List (Text × E.Value)

module _ (E : Engine) where
  -- the row that a `SELECT` list makes of a row
  unfoldable pub project : List ProjectionItem → Row E → Row E
  project [] r = []
  project (item ∷ items) r = (item.alias, E.value_of r item.expression) ∷ project items r

  abbrev pub project_optional : Option (List ProjectionItem) → Row E → Row E
  project_optional none r = r
  project_optional (some items) r = project items r

  -- a row's values under the names of a list, NULL where it has none
  unfoldable pub restrict : List Text → Row E → Row E
  restrict [] r = []
  restrict (n ∷ ns) r = (n, elim (lookup n r) [ none ↦ E.null | some v ↦ v ]) ∷ restrict ns r

  -- the row after `SET`: a column that is not assigned keeps its value
  unfoldable pub assign : List (Text × ExpressionNode) → Row E → Row E → Row E
  assign sets old [] = []
  assign sets old ((n, v) ∷ r) =
      (n, elim (lookup n sets) [ none ↦ v | some e ↦ E.value_of old e ]) ∷ assign sets old r

  abbrev pub update_row : List (Text × ExpressionNode) → Option ExpressionNode → Row E → Row E
  update_row sets p r = if keeps E p r then assign sets r r else r

pub record Executor (E : Engine) : Type 0 where
  pub select :
      Option (List ProjectionItem)
      → Option ExpressionNode
      → SelectClauses
      → List (Row E)
      → List (Row E)
  pub union_all : List (Row E) → List (Row E) → List (Row E)
  pub except_all : List (Row E) → List (Row E) → List (Row E)
  pub intersect_all : List (Row E) → List (Row E) → List (Row E)
  pub join :
      JoinType
      → Option ExpressionNode
      → List ProjectionItem
      → Text
      → Text
      → Option ExpressionNode
      → List (Row E)
      → List (Row E)
      → List (Row E)
  pub lateral : List Text → List (Row E) → List (Row E)
  pub delete : Option ExpressionNode → List (Row E) → List (Row E)
  pub insert : List (Row E) → List (Row E) → List (Row E)
  pub update : List (Text × ExpressionNode) → Option ExpressionNode → List (Row E) → List (Row E)
  pub select_plain :
      (items : Option (List ProjectionItem)) (p : Option ExpressionNode) (rs : List (Row E))
      → Perm (select items p no_clauses rs) (map (project_optional E items) (filter (keeps E p) rs))
  -- an inner `ORDER BY` changes the order alone
  pub select_ordered :
      (items : Option (List ProjectionItem)) (p : Option ExpressionNode)
      (keys : List ExpressionNode) (rs : List (Row E))
      → Perm
          (select items p (record no_clauses { order_by = some keys }) rs)
          (select items p no_clauses rs)
  pub union_all_rows : (a b : List (Row E)) → Perm (union_all a b) (a ++ b)
  pub except_all_nil : (a : List (Row E)) → Perm (except_all a []) a
  -- each row as often as both sides have it: no row is left over on the two sides at once
  pub intersect_all_rows :
      (a b : List (Row E))
      → (a' b' : List (Row E)) × Perm a (intersect_all a b ++ a')
        × Perm b (intersect_all a b ++ b')
        × ((r : Row E) → Mem r a' → Mem r b' → ⊥)
  -- with no right row each left row stands once, read through its alias
  pub join_left_empty :
      (c : ExpressionNode) (columns : List Named) (la ra : Text) (a : List (Row E))
      → Perm
          (join left_outer (some c) (qualified_items la columns) la ra none a [])
          (map (restrict E (names columns)) a)
  pub lateral_rows :
      (names : List Text) (rs : List (Row E)) → Perm (lateral names rs) (map (restrict E names) rs)
  pub delete_rows :
      (p : Option ExpressionNode) (rs : List (Row E))
      → Perm (delete p rs) (filter (λ r. not (keeps E p r)) rs)
  pub insert_rows : (a b : List (Row E)) → Perm (insert a b) (a ++ b)
  pub update_rows :
      (sets : List (Text × ExpressionNode)) (p : Option ExpressionNode) (rs : List (Row E))
      → Perm (update sets p rs) (map (update_row E sets p) rs)
