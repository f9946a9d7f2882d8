-- ===== src/Equivalence/Contract/Writes.antt =====
-- The builders of tables that statements write again: by a delete and the reinsertion of what it
-- deleted, or by an update that changes nothing.
use mathlib.Core.List.{Perm}
use mathlib.Core.List.Perm
use coa.Base.{
  Bool, true, false, if◌then◌else◌, ◌&&◌, ◌||◌, not, Option, none, some, List, [], ◌∷◌, ◌≡◌, refl,
  sym, subst, filter_all, perm_of_eq, perm_filter, perm_merge, All-map,
}
use coa.Base.Text.{codes}
use coa.Core.Catalog.{Named, signature}
use coa.Ir.Expr.{ExpressionNode}
use coa.Equivalence.Ast.{
  QueryNode, delete_reinsert_table, signature_of_query, signature_of_relation,
}
use coa.Equivalence.Constraints.{
  ConstraintSet, current_filter, get_optional_constraint, exposed_name_of,
}
use coa.Equivalence.Context.{Environment}
use coa.Equivalence.Builders.Base.{Ask}
use coa.Equivalence.Builders.Creates.{
  named_or_minted, mutation_predicate, build_delete_reinsert, build_noop_update_of,
  build_noop_update,
}
use coa.Equivalence.Contract.Yields.{
  Yields, Yields-bind, Yields-then, Yields-pure, Yields-decline, Yields-weaken,
}
use coa.Equivalence.Contract.Promise.{
  Holds, HoldsRelation, Meets, BaseTable, projection, base-Holds, Holds-rows,
}
use coa.Equivalence.Contract.Columns.{rewritten-rows}
use coa.Sql.Engine.{Engine, lookup}
use coa.Sql.Logic.{keeps}
use coa.Sql.Executor.{Executor, Row, names, bare_items, assign, update_row}
use coa.Sql.Denotation.{rows_of_query, rows_of_relation}
use coa.Sql.Rows.{cons_inj, labels, Distinct, map-same, RewritesOf, assign-identity, identity_sets}
use coa.Equivalence.Contract.Creations.{plain_set}

module _ {E : Engine} (X : Executor E) (env : Environment) (base : List (Row E)) where
  module _ (ask : Ask) (m : Meets X env base ask) where
    RewritesOf-bare : (ns ms : List Named) → names ms ≡ names ns → RewritesOf E ns (bare_items ms)
    RewritesOf-bare [] [] e = tt
    RewritesOf-bare [] (y ∷ ms) e = cc
    RewritesOf-bare (x ∷ ns) [] e = cc
    RewritesOf-bare (x ∷ ns) (y ∷ ms) e =
        let (p, q) = cons_inj e in
        (
          p,
          (λ r v h. E.value_col r y.alias y.target v (subst (λ n. lookup n r ≡ some v) (sym p) h)),
          RewritesOf-bare ns ms q,
        )

    apart : (b : Bool) → ((not b && b) ≡ false) × (true ≡ (not b || b))
    apart true = (refl, refl)
    apart false = (refl, refl)

    -- From a factory that meets the contract for each request (`Meets`), for a set with neither
    -- filter nor rewrite: the table whose rows under a predicate are deleted and inserted again
    -- from the base table, if it is built, holds the base rows, rows at which the predicate is
    -- unknown included.
    pub build_delete_reinsert-Holds :
        (cs : ConstraintSet)
        → BaseTable X env base
        → current_filter cs ≡ none
        → projection cs ≡ none
        → Yields (HoldsRelation X env base cs) (build_delete_reinsert env ask cs)
    unfolding build_delete_reinsert rows_of_relation signature_of_relation current_filter projection
        get_optional_constraint
    build_delete_reinsert-Holds cs b f e =
        Yields-bind (ask.query []) _ (m.query [] (plain_set X env base refl refl)) (λ q hq.
          Yields-then (mutation_predicate env) _ (λ p.
            Yields-then (named_or_minted env (codes "table") (exposed_name_of cs)) _ (λ name.
              Yields-pure (delete_reinsert_table name q env.base_table p) (
                rw (f, e)
                  (base-Holds X env base
                    (Perm.trans (X.insert_rows _ _) (
                      Perm.trans
                        (Perm.append
                          (Perm.trans (X.delete_rows p _)
                            (perm_filter (λ r. not (keeps E p r)) (Holds-rows X env base hq)))
                          (Perm.trans
                            (X.select_plain (some (bare_items (signature_of_query q))) p base)
                            (perm_of_eq (
                              rewritten-rows X env base (bare_items (signature_of_query q))
                                (keeps E p) b
                                (RewritesOf-bare (signature env.base_table) (signature_of_query q)
                                  hq.named)))))
                        (Perm.trans
                          (perm_merge (λ r. not (keeps E p r)) (keeps E p) (λ _. true) base
                            (λ r. (apart (keeps E p r)).0) (λ r. (apart (keeps E p r)).1))
                          (perm_of_eq (filter_all (λ _. true) base (λ r. refl))))))
                    hq.named)))))

    update-same :
        (ns : List Named) (p : Option ExpressionNode) (r : Row E)
        → Distinct (labels r)
        → update_row E (identity_sets E ns) p r ≡ r
    update-same ns p r d = by_cases (keeps E p r)
      where
        by_cases : (k : Bool) → (if k then assign E (identity_sets E ns) r r else r) ≡ r
        by_cases true = assign-identity E ns r d
        by_cases false = refl

    noop_update_of-Holds :
        (cs : ConstraintSet) (q : QueryNode) (ns : List Named)
        → BaseTable X env base
        → Perm (rows_of_query X base q) base
        → names (signature_of_query q) ≡ names (signature env.base_table)
        → Yields
            (λ r. Holds X env base none none (rows_of_relation X base r) (signature_of_relation r))
            (build_noop_update_of env cs q ns)
    unfolding rows_of_relation signature_of_relation
    noop_update_of-Holds cs q [] b h e = Yields-decline
    noop_update_of-Holds cs q (n ∷ ns) b h e = Yields-then (mutation_predicate env) _ (λ p.
        Yields-then (named_or_minted env (codes "table") (exposed_name_of cs)) _ (λ name.
          Yields-pure _ (
            base-Holds X env base
              (Perm.trans (X.update_rows (identity_sets E (n ∷ ns)) p _) (
                Perm.trans (Perm.map (update_row E (identity_sets E (n ∷ ns)) p) h) (
                  perm_of_eq (
                    map-same E (update_row E (identity_sets E (n ∷ ns)) p) base (
                      All-map _ _ base
                        (λ r l. update-same (n ∷ ns) p r (subst Distinct (sym l) b.distinct))
                        b.labelled)))))
              e)))

    -- From a factory that meets the contract for each request (`Meets`), for a set with neither
    -- filter nor rewrite: the table updated by `SET column = column`, if it is built, holds the
    -- base rows, whatever the update's predicate is.
    pub build_noop_update-Holds :
        (cs : ConstraintSet)
        → BaseTable X env base
        → current_filter cs ≡ none
        → projection cs ≡ none
        → Yields (HoldsRelation X env base cs) (build_noop_update env ask cs)
    unfolding build_noop_update current_filter projection get_optional_constraint
    build_noop_update-Holds cs b f e =
        Yields-bind (ask.query []) _ (m.query [] (plain_set X env base refl refl)) (λ q hq.
          Yields-weaken (build_noop_update_of env cs q (signature_of_query q))
            (noop_update_of-Holds cs q (signature_of_query q) b (Holds-rows X env base hq) hq.named)
            (λ r h. rw (f, e) h))
