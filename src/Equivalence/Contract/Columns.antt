-- ===== src/Equivalence/Contract/Columns.antt =====
-- The base table's own columns: a projection by expressions of their values gives the rows back.
use mathlib.Core.List.{Perm}
use mathlib.Core.List.Perm
use coa.Base.{
  Bool, Option, none, some, List, [], ◌∷◌, ◌≡◌, refl, sym, ap, ◌∙◌, map, filter, All, All-filter,
  All-map, perm_of_eq,
}
use coa.Core.Catalog.{signature}
use coa.Ir.Expr.{ExpressionNode}
use coa.Equivalence.Ast.{no_clauses, ProjectionItem, named_item}
use coa.Equivalence.Context.{Environment}
use coa.Equivalence.Builders.Base.{passthrough_items, column_item}
use coa.Equivalence.Contract.Promise.{Holds, BaseTable, filtered, select-rows, unprojected}
use coa.Sql.Engine.{Engine}
use coa.Sql.Logic.{keeps}
use coa.Sql.Executor.{Executor, Row, names, project, project_optional, restrict}
use coa.Sql.Rows.{
  labels, map-same, RewritesOf, RewritesOf-columns, RewritesOf-aliases, SameValue-col,
  project-RewritesOf, restrict-same,
}

pub named_aliases :
    (items : List ProjectionItem) → names (map named_item items) ≡ map (λ i. i.alias) items
named_aliases [] = refl
named_aliases (i ∷ items) = ap (λ xs. i.alias ∷ xs) (named_aliases items)

module _ {E : Engine} (X : Executor E) (env : Environment) (base : List (Row E)) where
  -- every base row, and so every filtered one, is as a property of labelled rows says
  pub base-All :
      (P : Row E → Type 0)
      → BaseTable X env base
      → (q : Row E → Bool) → ((r : Row E) → labels r ≡ names (signature env.base_table) → P r)
      → All P (filter q base)
  base-All P b q h = All-filter P q base (All-map _ P base h b.labelled)

  pub rewritten-rows :
      (items : List ProjectionItem) (q : Row E → Bool)
      → BaseTable X env base
      → RewritesOf E (signature env.base_table) items
      → map (project_optional E (some items)) (filter q base) ≡ filter q base
  rewritten-rows items q b h = map-same E (project E items) (filter q base) (
      base-All _ b q
        (λ r e. project-RewritesOf E (signature env.base_table) items r b.distinct e h))

  pub restricted-rows :
      BaseTable X env base → map (restrict E (names (signature env.base_table))) base ≡ base
  restricted-rows b = map-same E (restrict E (names (signature env.base_table))) base (
      All-map _ _ base (λ r e. restrict-same E (signature env.base_table) r b.distinct e)
        b.labelled)

  pub passthrough-RewritesOf :
      RewritesOf E (signature env.base_table) (passthrough_items env.base_table)
  unfolding signature passthrough_items
  passthrough-RewritesOf =
      RewritesOf-columns E env.base_table.columns column_item (λ c. (refl, SameValue-col E c))

  -- A `SELECT` of expressions of the columns' values, over the base rows, asks for the same as
  -- `SELECT *` would.
  pub select-RewritesOf :
      (items : List ProjectionItem) (p : Option ExpressionNode) (rs : List (Row E))
      → BaseTable X env base
      → RewritesOf E (signature env.base_table) items
      → Perm rs base
      → Holds X env base p none (X.select (some items) p no_clauses rs) (map named_item items)
  select-RewritesOf items p rs b w h = record {
    rows = Perm.trans (select-rows X env base (some items) p rs h) (
        perm_of_eq (
          rewritten-rows items (keeps E p) b w
          ∙ sym (unprojected X env base (filtered X env base p))));
    named = named_aliases items ∙ RewritesOf-aliases E (signature env.base_table) items w;
  }
