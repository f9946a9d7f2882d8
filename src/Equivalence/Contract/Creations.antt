-- ===== src/Equivalence/Contract/Creations.antt =====
-- The builders of relations that are created as a query, under each of the six kinds.
use mathlib.Core.List.{Perm}
use mathlib.Core.List.Perm
use coa.Base.{Option, none, some, List, [], ◌∷◌, ◌≡◌, ◌⊎◌, inl, inr, refl, ◌∙◌, filter, filter_all}
use coa.Base.Text.{Text}
use coa.Ir.Expr.{ExpressionNode}
use coa.Equivalence.Ast.{
  EquivalentRelation, CreateKind, view, temporary_view, materialized_view, table, temporary_table,
  unlogged_table, ProjectionItem, QueryNode, create_from_query, select_query, relation_source,
  no_clauses, signature_of_query, signature_of_relation, signature_of_source,
}
use coa.Equivalence.Constraints.{
  ConstraintSet, row_filter, accepts_dml, single_source, column_rewrite, tag_channel, key_channel,
  exposed_name, current_filter, get_optional_constraint, row_filters, rewrites, tags, keys,
  exposed_name_of, type_of, same_type, constraint_set, add,
}
use coa.Equivalence.Context.{Environment, merge_refused}
use coa.Equivalence.Builders.Base.{Ask, make_set}
use coa.Equivalence.Builders.Creates.{
  named_or_minted, label_of, create_as_select, wrap, build_create,
}
use coa.Equivalence.Contract.Yields.{
  Yields, IfSome, Yields-bind, Yields-then, Yields-pure, Yields-or_raise, Yields-weaken,
}
use coa.Equivalence.Contract.Promise.{HoldsRelation, Meets, Plain, projection, unprojected}
use coa.Sql.Engine.{Engine}
use coa.Sql.Logic.{keeps}
use coa.Sql.Executor.{Executor, Row, names}
use coa.Sql.Denotation.{rows_of_query, rows_of_relation, rows_of_source}

module _ {E : Engine} (X : Executor E) (env : Environment) (base : List (Row E)) where
  -- the rows and names of a relation are the query's that it was created from
  unfoldable pub SameAs : QueryNode → EquivalentRelation → Type 0
  SameAs q r =
      Perm (rows_of_relation X base r) (rows_of_query X base q)
      × (names (signature_of_relation r) ≡ names (signature_of_query q))

  pub create_as_select-SameAs :
      (kind : CreateKind) (q : QueryNode) (name : Option Text)
      → Yields (SameAs q) (create_as_select env kind q name)
  unfolding SameAs create_as_select rows_of_relation signature_of_relation
  create_as_select-SameAs kind q name =
      Yields-then (named_or_minted env (label_of kind) name) _
        (λ n. Yields-pure (create_from_query n kind q) (Perm.refl _, refl))

  -- A materialized view reads the table that is written first, so it too holds the query's rows.
  wrap-SameAs :
      (kind : CreateKind) (q : QueryNode) (name : Option Text)
      → Yields (SameAs q) (wrap env kind q name)
  unfolding wrap SameAs rows_of_query signature_of_query rows_of_source signature_of_source
  wrap-SameAs materialized_view q name =
      Yields-bind (create_as_select env table q none) _ (create_as_select-SameAs table q none)
        (λ body hb.
          Yields-weaken
            (create_as_select env materialized_view
              (select_query (relation_source body) none none no_clauses) name)
            (create_as_select-SameAs materialized_view
              (select_query (relation_source body) none none no_clauses) name)
            (λ r hr. (
              Perm.trans hr.0 (
                  Perm.trans (X.select_plain none none (rows_of_relation X base body)) (
                    rw
                      (
                        unprojected X env base
                            (filter (keeps E none) (rows_of_relation X base body)),
                        filter_all (keeps E none) (rows_of_relation X base body) (λ _. refl),
                      )
                      hb.0)),
              hr.1 ∙ hb.1,
            )))
  wrap-SameAs view q name = create_as_select-SameAs view q name
  wrap-SameAs temporary_view q name = create_as_select-SameAs temporary_view q name
  wrap-SameAs table q name = create_as_select-SameAs table q name
  wrap-SameAs temporary_table q name = create_as_select-SameAs temporary_table q name
  wrap-SameAs unlogged_table q name = create_as_select-SameAs unlogged_table q name

  get_filter :
      (cs : ConstraintSet)
      → (get_optional_constraint row_filters cs ≡ none)
        ⊎ ((p : ExpressionNode) × (get_optional_constraint row_filters cs ≡ some (row_filter p)))
  unfolding get_optional_constraint type_of same_type
  get_filter [] = inl refl
  get_filter (row_filter p ∷ cs) = inr (p, refl)
  get_filter (accepts_dml ∷ cs) = get_filter cs
  get_filter (single_source ∷ cs) = get_filter cs
  get_filter (column_rewrite items ∷ cs) = get_filter cs
  get_filter (tag_channel n k ∷ cs) = get_filter cs
  get_filter (key_channel k ∷ cs) = get_filter cs
  get_filter (exposed_name n ∷ cs) = get_filter cs

  get_rewrite :
      (cs : ConstraintSet)
      → (get_optional_constraint rewrites cs ≡ none)
        ⊎ ((items : List ProjectionItem) × (get_optional_constraint rewrites cs
              ≡ some (column_rewrite items)))
  unfolding get_optional_constraint type_of same_type
  get_rewrite [] = inl refl
  get_rewrite (column_rewrite items ∷ cs) = inr (items, refl)
  get_rewrite (accepts_dml ∷ cs) = get_rewrite cs
  get_rewrite (single_source ∷ cs) = get_rewrite cs
  get_rewrite (row_filter p ∷ cs) = get_rewrite cs
  get_rewrite (tag_channel n k ∷ cs) = get_rewrite cs
  get_rewrite (key_channel k ∷ cs) = get_rewrite cs
  get_rewrite (exposed_name n ∷ cs) = get_rewrite cs

  -- a set that asks for the same rows as another
  record Forwards (cs ds : ConstraintSet) : Type 0 where
    plain : Plain ds
    same_filter : current_filter ds ≡ current_filter cs
    same_projection : projection ds ≡ projection cs

  pub plain_set :
      {ds : ConstraintSet}
      → get_optional_constraint tags ds ≡ none
      → get_optional_constraint keys ds ≡ none
      → Plain ds
  plain_set t k = record { untagged = t; unkeyed = k }

  forward-Forwards :
      (cs : ConstraintSet)
      → IfSome (Forwards cs) (
          constraint_set
            (get_optional_constraint row_filters cs ∷ get_optional_constraint rewrites cs ∷ [])
            [])
  unfolding constraint_set add get_optional_constraint type_of same_type current_filter projection
  forward-Forwards cs = elim (get_filter cs) [
    | inl f ↦ elim (get_rewrite cs) [
      | inl w ↦
          rw (f, w)
            (record {
              plain = plain_set refl refl;
              same_filter = rw f refl;
              same_projection = rw w refl;
            })
      | inr (items, w) ↦
          rw (f, w)
            (record {
              plain = plain_set refl refl;
              same_filter = rw f refl;
              same_projection = rw w refl;
            })
    ]
    | inr (p, f) ↦ elim (get_rewrite cs) [
      | inl w ↦
          rw (f, w)
            (record {
              plain = plain_set refl refl;
              same_filter = rw f refl;
              same_projection = rw w refl;
            })
      | inr (items, w) ↦
          rw (f, w)
            (record {
              plain = plain_set refl refl;
              same_filter = rw f refl;
              same_projection = rw w refl;
            })
    ]
  ]

  module _ (ask : Ask) (m : Meets X env base ask) where
    -- From a factory that meets the contract for each request (`Meets`): a view or table of any of
    -- the six kinds, if it is built, holds the filtered and projected rows that were asked for; a
    -- materialized view reads them from the table written before it.
    pub build_create-Holds :
        (kind : CreateKind) (cs : ConstraintSet)
        → Yields (HoldsRelation X env base cs) (build_create env kind ask cs)
    unfolding build_create make_set SameAs
    build_create-Holds kind cs =
        Yields-bind
          (make_set
            (get_optional_constraint row_filters cs ∷ get_optional_constraint rewrites cs ∷ []))
          _
          (Yields-or_raise
            (constraint_set
              (get_optional_constraint row_filters cs ∷ get_optional_constraint rewrites cs ∷ [])
              [])
            merge_refused (forward-Forwards cs))
          (λ ds f. Yields-bind (ask.query ds) _ (m.query ds f.plain) (λ q hq.
            Yields-weaken (wrap env kind q (exposed_name_of cs))
              (wrap-SameAs kind q (exposed_name_of cs))
              (λ r hr.
                rw (← f.same_filter, ← f.same_projection)
                  (record { rows = Perm.trans hr.0 hq.rows; named = hr.1 ∙ hq.named }))))
