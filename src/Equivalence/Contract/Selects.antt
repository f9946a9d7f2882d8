-- ===== src/Equivalence/Contract/Selects.antt =====
-- The builders of one defining query over one source, and the creations of named relations.
use mathlib.Core.List.Perm
use coa.Base.{Bool, Option, none, some, List, [], ◌∷◌, ◌≡◌, refl, sym, subst, perm_of_eq}
use coa.Base.Text.{Text, codes}
use coa.Core.Catalog.{signature}
use coa.Equivalence.Ast.{
  no_clauses, signature_of_source, signature_of_query, select_query, cte_query,
  lateral_reproject_query,
}
use coa.Equivalence.Constraints.{
  ConstraintSet, current_filter, get_optional_constraint, rewrites, projection_of,
}
use coa.Equivalence.Context.{Environment, pure, mint, lift}
use coa.Equivalence.Builders.Base.{Ask, dispatch_source, passthrough_items}
use coa.Equivalence.Builders.Selects.{
  build_select_star, build_cte, build_explicit_projection, build_lateral_reproject,
  build_projection, build_ordered_scan, non_empty, order_by_first,
}
use coa.Equivalence.Contract.Yields.{Yields, Yields-bind, Yields-then, Yields-pure, Yields-decline}
use coa.Equivalence.Contract.Promise.{
  HoldsQuery, Meets, BaseTable, projection, base-Holds, Holds-rows, select-rows, dispatch-Holds,
}
use coa.Equivalence.Contract.Columns.{
  passthrough-RewritesOf, select-RewritesOf, restricted-rows, named_aliases,
}
use coa.Sql.Engine.{Engine}
use coa.Sql.Executor.{Executor, Row, names, restrict}
use coa.Sql.Denotation.{rows_of_source, rows_of_query}
use coa.Sql.Rows.{RewritesOf}

pub non_empty-itself : {A : Type 0} (xs : List A) → Yields (λ ys. ys ≡ xs) (non_empty xs)
non_empty-itself [] = Yields-decline
non_empty-itself (x ∷ xs) = Yields-pure (x ∷ xs) refl

lift-itself : {A : Type 0} (o : Option A) → Yields (λ a. o ≡ some a) (lift o)
lift-itself none = Yields-decline
lift-itself (some a) = Yields-pure a refl

module _ {E : Engine} (X : Executor E) (env : Environment) (base : List (Row E)) (ask : Ask) where
  -- `SELECT *` over its source, under the filter that it was asked for.
  pub build_select_star-Holds :
      (cs : ConstraintSet)
      → Meets X env base ask
      → projection cs ≡ none
      → Yields (HoldsQuery X env base cs) (build_select_star ask cs)
  unfolding build_select_star rows_of_query signature_of_query
  build_select_star-Holds cs m e =
      Yields-bind (dispatch_source ask cs)
        (λ s. pure (select_query s none (current_filter cs) no_clauses))
        (dispatch-Holds X env base ask cs m)
        (λ s h. Yields-pure (select_query s none (current_filter cs) no_clauses) (record {
          rows = rw e (select-rows X env base none (current_filter cs) _ (Holds-rows X env base h));
          named = rw e h.named;
        }))

  -- From a factory that meets the contract for each request (`Meets`), for a set with no rewrite: a
  -- common table expression under any hint, if it is built, holds the rows of the set's filter.
  pub build_cte-Holds :
      (label : Text) (hint : Option Bool) (cs : ConstraintSet)
      → Meets X env base ask
      → projection cs ≡ none
      → Yields (HoldsQuery X env base cs) (build_cte env label hint ask cs)
  unfolding build_cte rows_of_query signature_of_query
  build_cte-Holds label hint cs m e =
      Yields-bind (dispatch_source ask cs) _ (dispatch-Holds X env base ask cs m) (λ s h.
        Yields-then (mint env label) _ (λ name.
          Yields-pure (cte_query s name (current_filter cs) hint) (record {
            rows =
                rw e (select-rows X env base none (current_filter cs) _ (Holds-rows X env base h));
            named = rw e h.named;
          })))

  -- An explicit list of the base table's columns, for one that has any.
  pub build_explicit_projection-Holds :
      (cs : ConstraintSet)
      → BaseTable X env base
      → Meets X env base ask
      → projection cs ≡ none
      → Yields (HoldsQuery X env base cs) (build_explicit_projection env ask cs)
  unfolding build_explicit_projection rows_of_query signature_of_query
  build_explicit_projection-Holds cs b m e =
      Yields-bind (non_empty (passthrough_items env.base_table)) _ (non_empty-itself _) (λ items i.
        Yields-bind (dispatch_source ask cs) _ (dispatch-Holds X env base ask cs m) (λ s h.
          Yields-pure (select_query s (some items) (current_filter cs) no_clauses) (
            rw e (
              select-RewritesOf X env base items (current_filter cs) _ b
                (subst (RewritesOf E (signature env.base_table)) (sym i)
                  (passthrough-RewritesOf X env base))
                (Holds-rows X env base h)))))

  -- From a factory that meets the contract for each request (`Meets`): the columns read through a
  -- lateral subquery, if it is built, are the base rows.
  pub build_lateral_reproject-Holds :
      BaseTable X env base
      → Meets X env base ask
      → Yields (HoldsQuery X env base []) (build_lateral_reproject ask)
  unfolding build_lateral_reproject rows_of_query signature_of_query current_filter projection
      get_optional_constraint
  build_lateral_reproject-Holds b m =
      Yields-bind (dispatch_source ask []) _ (dispatch-Holds X env base ask [] m) (λ s h.
        Yields-then (non_empty (signature_of_source s)) _ (λ items.
          Yields-pure (lateral_reproject_query s (codes "s") (codes "l")) (
            base-Holds X env base
              (Perm.trans (X.lateral_rows (names (signature_of_source s)) (rows_of_source X base s))
                (rw (h.named) (
                  Perm.trans
                    (Perm.map (restrict E (names (signature env.base_table)))
                      (Holds-rows X env base h))
                    (perm_of_eq (restricted-rows X env base b)))))
              h.named)))

  -- From a factory that meets the contract for each request (`Meets`): the columns ordered by the
  -- first of them, if the query is built, are the base rows.
  pub build_ordered_scan-Holds :
      BaseTable X env base
      → Meets X env base ask
      → Yields (HoldsQuery X env base []) (build_ordered_scan env ask)
  unfolding build_ordered_scan rows_of_query signature_of_query current_filter projection
      get_optional_constraint
  build_ordered_scan-Holds b m =
      Yields-bind (non_empty (passthrough_items env.base_table)) _ (non_empty-itself _) (λ items i.
        Yields-bind (dispatch_source ask []) _ (dispatch-Holds X env base ask [] m) (λ s h.
          let select_holds =
            select-RewritesOf X env base items none _ b
              (subst (RewritesOf E (signature env.base_table)) (sym i)
                (passthrough-RewritesOf X env base))
              (Holds-rows X env base h) in
          Yields-pure _ (record {
            rows =
                Perm.trans (X.select_ordered (some items) none (order_by_first items) _)
                  select_holds.rows;
            named = select_holds.named;
          })))

  -- From a factory that meets the contract for each request (`Meets`): for a set with a rewrite the
  -- query that is built holds the rows of the set's filter, projected by the rewrite, under its
  -- names.
  pub build_projection-Holds :
      (cs : ConstraintSet)
      → Meets X env base ask
      → Yields (HoldsQuery X env base cs) (build_projection ask cs)
  unfolding build_projection rows_of_query signature_of_query projection
  build_projection-Holds cs m =
      Yields-bind (dispatch_source ask cs) _ (dispatch-Holds X env base ask cs m) (λ s h.
        Yields-bind (lift (projection_of (get_optional_constraint rewrites cs))) _
          (lift-itself (projection_of (get_optional_constraint rewrites cs)))
          (λ items i. Yields-pure _ (
            rw (i) (record {
              rows =
                  select-rows X env base (some items) (current_filter cs) _
                    (Holds-rows X env base h);
              named = named_aliases items;
            }))))
