-- ===== src/Equivalence/Contract/Tree.antt =====
-- The trees that the factory builds, of any depth and under any weights and random numbers: each
-- node holds what it was asked for.
use mathlib.Core.List.{Perm}
use coa.Base.{
  ℕ, zero, suc, ◌+◌, ltb, leb, Bool, true, false, if◌then◌else◌, List, [], ◌∷◌, ◌≡◌, filter, length,
  All, All-map, filter-All,
}
use coa.Base.Text.{Text}
use coa.Config.Weighted.{weighted_shuffle, weighted_shuffle-All}
use coa.Core.Catalog.{signature}
use coa.Ir.Expr.{ValueCodec}
use coa.Equivalence.Ast.{
  base_table_source, relation_source, EqNode, source_node, query_node, signature_of_source,
  signature_of_relation,
}
use coa.Equivalence.Constraints.{
  ConstraintSet, same_type, current_filter, exposed_name, get_constraint_types,
  get_optional_constraint, type_of,
}
use coa.Equivalence.Context.{Context, Environment, Gen}
use coa.Equivalence.Builders.Base.{Ask}
use coa.Equivalence.Factory.Classes.{
  BuilderClass, Kind, sources, relations, queries, supported_constraint_types,
}
use coa.Equivalence.Factory.Dispatch.{
  Factory, subset, as_source, as_relation, as_query, build, is_eligible, leaf_only, filter_builders,
  active_weights, check_all, run_builder, enter_builder, try_builders, dispatch, check_deadline,
  asking, build_subtree, generate,
}
use coa.Equivalence.Contract.Yields.{Yields, Yields-bind, Yields-then, Yields-pure, Yields-weaken}
use coa.Equivalence.Contract.Promise.{
  HoldsQuery, HoldsRelation, HoldsSource, Meets, BaseTable, projection, Holds-rows,
}
use coa.Equivalence.Contract.Supports.{is_eligible-supports}
use coa.Equivalence.Contract.Rewrites.{Lossless}
use coa.Equivalence.Contract.Nodes.{
  HoldsNode, check_all-HoldsNode, or_else-HoldsNode, build-HoldsNode,
}
use coa.Sql.Engine.{Engine}
use coa.Sql.Executor.{Executor, Row, names}
use coa.Sql.Denotation.{rows_of_source, rows_of_relation}

module _ {E : Engine} (X : Executor E) (env : Environment) (base : List (Row E)) where
  module _ (b : BaseTable X env base) (lossless : (codec : ValueCodec) → Lossless E codec) where
    run_builder-HoldsNode :
        (ask : Ask) (bc : BuilderClass) (cs : ConstraintSet)
        → Meets X env base ask
        → subset (get_constraint_types cs) (supported_constraint_types bc) ≡ true
        → Yields (HoldsNode X env base cs) (run_builder env bc ask cs)
    unfolding run_builder
    run_builder-HoldsNode ask bc cs m s =
        Yields-bind (build env bc ask cs) (λ node. check_all node cs)
          (build-HoldsNode X env base b lossless ask bc cs m s)
          (λ node h. check_all-HoldsNode X env base node cs cs h)

    -- The first builder of a list that builds gives what was asked for.
    try_builders-HoldsNode :
        (ask : Ask) (cs : ConstraintSet) (bcs : List BuilderClass)
        → Meets X env base ask
        → All (λ bc. subset (get_constraint_types cs) (supported_constraint_types bc) ≡ true) bcs
        → Yields (HoldsNode X env base cs) (try_builders env bcs ask cs)
    unfolding try_builders enter_builder
    try_builders-HoldsNode ask cs [] m s = record { at = λ c. tt }
    try_builders-HoldsNode ask cs (bc ∷ bcs) m s = record {
      at = λ c.
          or_else-HoldsNode X env base cs
            (run_builder env bc ask cs (record c { depth = c.depth + 1 })).0
            (try_builders env bcs ask cs) _
            ((run_builder-HoldsNode ask bc cs m s.0).at (record c { depth = c.depth + 1 }))
            (try_builders-HoldsNode ask cs bcs m s.1);
    }

    filter_builders-supports :
        (f : Factory) (kind : Kind) (cs : ConstraintSet) (c : Context)
        → All
            (λ bc. subset (get_constraint_types cs) (supported_constraint_types bc) ≡ true)
            (filter_builders env f kind cs c)
    unfolding filter_builders
    filter_builders-supports f kind cs c = at_depth (leb env.max_depth c.depth)
      where
        at_depth :
            (d : Bool)
            → All
                (λ bc. subset (get_constraint_types cs) (supported_constraint_types bc) ≡ true)
                (if d then [] else filter (is_eligible kind cs (leaf_only env c)) f.builders)
        at_depth true = tt
        at_depth false =
            All-map _ _ _ (λ bc e. is_eligible-supports kind cs (leaf_only env c) bc e)
              (filter-All (is_eligible kind cs (leaf_only env c)) f.builders)

    dispatch-HoldsNode :
        (f : Factory) (kind : Kind) (ask : Ask) (cs : ConstraintSet)
        → Meets X env base ask
        → Yields (HoldsNode X env base cs) (dispatch env f kind ask cs)
    unfolding dispatch
    dispatch-HoldsNode f kind ask cs m = record {
      at = λ c.
          (try_builders-HoldsNode ask cs
              (weighted_shuffle (active_weights f c) f.race env.draw c.draws
                (filter_builders env f kind cs c))
              m
              (weighted_shuffle-All _ (active_weights f c) f.race env.draw c.draws _
                (filter_builders-supports f kind cs c))).at
            (record c {
              draws =
                  c.draws
                  + length (
                      filter (λ b. ltb 0 (active_weights f c b)) (filter_builders env f kind cs c));
            });
    }

    as_source-Holds :
        (cs : ConstraintSet) (node : EqNode)
        → HoldsNode X env base cs node
        → Yields (HoldsSource X env base cs) (as_source node)
    unfolding HoldsNode
    as_source-Holds cs (source_node s) h = Yields-pure s h
    as_source-Holds cs (query_node q) h = record { at = λ c. tt }

    as_relation-Holds :
        (cs : ConstraintSet) (node : EqNode)
        → HoldsNode X env base cs node
        → Yields (HoldsRelation X env base cs) (as_relation node)
    unfolding HoldsNode rows_of_source signature_of_source
    as_relation-Holds cs (source_node (relation_source r)) h = Yields-pure r h
    as_relation-Holds cs (source_node (base_table_source t)) h = record { at = λ c. tt }
    as_relation-Holds cs (query_node q) h = record { at = λ c. tt }

    as_query-Holds :
        (cs : ConstraintSet) (node : EqNode)
        → HoldsNode X env base cs node
        → Yields (HoldsQuery X env base cs) (as_query node)
    unfolding HoldsNode
    as_query-Holds cs (query_node q) h = Yields-pure q h
    as_query-Holds cs (source_node s) h = record { at = λ c. tt }

    pub asking-Meets :
        (subtree : Kind → ConstraintSet → Gen EqNode)
        → ((kind : Kind) (cs : ConstraintSet) → Yields (HoldsNode X env base cs) (subtree kind cs))
        → Meets X env base (asking subtree)
    unfolding asking
    asking-Meets subtree h = record {
      source =
          λ cs p. Yields-bind (subtree sources cs) as_source (h sources cs) (as_source-Holds cs);
      relation = λ cs p.
          Yields-bind (subtree relations cs) as_relation (h relations cs) (as_relation-Holds cs);
      query = λ cs p. Yields-bind (subtree queries cs) as_query (h queries cs) (as_query-Holds cs);
    }

    -- Under the same assumptions on the engine and the base table, whatever node `build_subtree`
    -- builds for a set of constraints holds the base rows that the set's filter keeps, projected as
    -- its rewrite says, under the names that this gives, whatever kind of node was asked for and
    -- whatever the fuel.
    pub build_subtree-HoldsNode :
        (f : Factory) (fuel : ℕ) (kind : Kind) (cs : ConstraintSet)
        → Yields (HoldsNode X env base cs) (build_subtree env f fuel kind cs)
    unfolding build_subtree
    build_subtree-HoldsNode f zero kind cs = record { at = λ c. tt }
    build_subtree-HoldsNode f (suc fuel) kind cs = Yields-then (check_deadline env) _ (λ _.
        dispatch-HoldsNode f kind (asking (build_subtree env f fuel)) cs
          (asking-Meets (build_subtree env f fuel) (build_subtree-HoldsNode f fuel)))

    -- The root that a generation returns holds exactly the rows of the base table, under its names.
    pub generate-Holds :
        (f : Factory) (fuel : ℕ) (name : Text)
        → Yields
            (λ r.
              Perm (rows_of_relation X base r) base
              × (names (signature_of_relation r) ≡ names (signature env.base_table)))
            (generate env f fuel name)
    unfolding generate current_filter projection get_optional_constraint type_of same_type
    generate-Holds f fuel name =
        Yields-weaken (generate env f fuel name)
          (Yields-bind (build_subtree env f fuel relations (exposed_name name ∷ [])) as_relation
            (build_subtree-HoldsNode f fuel relations (exposed_name name ∷ []))
            (as_relation-Holds (exposed_name name ∷ [])))
          (λ r h. (Holds-rows X env base h, h.named))
