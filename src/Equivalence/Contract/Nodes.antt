-- ===== src/Equivalence/Contract/Nodes.antt =====
-- What a node holds, whichever builder it came from, and the builders as the factory runs them.
use mathlib.Core.List.Perm
use coa.Base.{Bool, true, false, if◌then◌else◌, none, List, [], ◌≡◌, refl, sym, subst, all}
use coa.Ir.Expr.{ValueCodec, hex, json_pack}
use coa.Equivalence.Ast.{
  base_table_source, relation_source, EquivalentRelation, QueryNode, EqNode, source_node,
  query_node, signature_of_source,
}
use coa.Equivalence.Constraints.{
  ConstraintSet, same_type, current_filter, meets_constraint, get_constraint_types,
}
use coa.Equivalence.Context.{
  Context, Environment, Outcome, built, declined, raised, Gen, pure, raise, constraint_violation,
  ◌>>=◌,
}
use coa.Equivalence.Builders.Base.{Ask}
use coa.Equivalence.Builders.Selects.{build_base_table_source}
use coa.Equivalence.Factory.Classes.{
  BuilderClass, create, delete_reinsert, noop_update, select_star, explicit_projection, cte,
  lateral_reproject, add_drop_column, projection_query, ordered_scan, partition_union,
  tlp_partition_union, union_empty, except_empty, intersect_self, uniform_codecs, mixed_codec,
  eet_case_column, eet_determined_filter, left_join_empty, base_source, supported_constraint_types,
}
use coa.Equivalence.Factory.Dispatch.{
  subset, defining, relation_node, build, check_all, or_else, cte_label,
}
use coa.Equivalence.Contract.Yields.{Post, Yields, Yields-bind, Yields-pure}
use coa.Equivalence.Contract.Promise.{
  HoldsQuery, HoldsRelation, HoldsSource, Meets, BaseTable, projection, base-Holds,
}
use coa.Equivalence.Contract.Supports.{no_filter, no_projection, nothing_supported}
use coa.Equivalence.Contract.Selects.{
  build_select_star-Holds, build_cte-Holds, build_explicit_projection-Holds,
  build_lateral_reproject-Holds, build_ordered_scan-Holds, build_projection-Holds,
}
use coa.Equivalence.Contract.Splits.{build_partition_union-Holds, build_tlp_partition_union-Holds}
use coa.Equivalence.Contract.Empty.{
  build_union_empty-Holds, build_except_empty-Holds, build_intersect_self-Holds,
  build_left_join_empty-Holds,
}
use coa.Equivalence.Contract.Rewrites.{
  Lossless, build_eet_case-Holds, build_eet_filter-Holds, build_uniform_codec-Holds,
  build_mixed_codec-Holds,
}
use coa.Equivalence.Contract.Creations.{build_create-Holds}
use coa.Equivalence.Contract.Writes.{build_delete_reinsert-Holds, build_noop_update-Holds}
use coa.Equivalence.Contract.Wider.{build_add_drop_column-Holds}
use coa.Sql.Engine.{Engine}
use coa.Sql.Executor.{Executor, Row}
use coa.Sql.Denotation.{rows_of_source}

module _ {E : Engine} (X : Executor E) (env : Environment) (base : List (Row E)) where
  unfoldable pub HoldsNode : ConstraintSet → EqNode → Type 0
  HoldsNode cs (source_node s) = HoldsSource X env base cs s
  HoldsNode cs (query_node q) = HoldsQuery X env base cs q

  defining-HoldsNode :
      (cs : ConstraintSet) (m : Gen QueryNode)
      → Yields (HoldsQuery X env base cs) m
      → Yields (HoldsNode cs) (defining m)
  unfolding HoldsNode
  defining-HoldsNode cs m h = Yields-bind m _ h (λ q hq. Yields-pure (query_node q) hq)

  relation_node-HoldsNode :
      (cs : ConstraintSet) (m : Gen EquivalentRelation)
      → Yields (HoldsRelation X env base cs) m
      → Yields (HoldsNode cs) (relation_node m)
  unfolding HoldsNode rows_of_source signature_of_source
  relation_node-HoldsNode cs m h =
      Yields-bind m _ h (λ r hr. Yields-pure (source_node (relation_source r)) hr)

  -- a builder that supports no constraint is run with none
  bare-HoldsNode :
      (cs : ConstraintSet) (m : Gen QueryNode)
      → subset (get_constraint_types cs) [] ≡ true
      → Yields (HoldsQuery X env base []) m
      → Yields (HoldsNode cs) (defining m)
  bare-HoldsNode cs m s h =
      subst (λ ds. Yields (HoldsNode ds) (defining m)) (sym (nothing_supported cs s))
        (defining-HoldsNode [] m h)

  base_source-HoldsNode :
      (cs : ConstraintSet)
      → current_filter cs ≡ none
      → projection cs ≡ none
      → Yields (HoldsNode cs) (build_base_table_source env >>= λ s. pure (source_node s))
  unfolding HoldsNode build_base_table_source rows_of_source signature_of_source ◌>>=◌
  base_source-HoldsNode cs f e =
      Yields-pure (source_node (base_table_source env.base_table))
        (rw (f, e) (base-Holds X env base (Perm.refl base) refl))

  pub check_all-HoldsNode :
      (node : EqNode) (cs ds : ConstraintSet)
      → HoldsNode cs node
      → Yields (HoldsNode cs) (check_all node ds)
  check_all-HoldsNode node cs ds h = checked (all (λ k. meets_constraint k node) ds)
    where
      checked :
          (b : Bool) → Yields (HoldsNode cs) (if b then pure node else raise constraint_violation)
      checked true = Yields-pure node h
      checked false = record { at = λ c. tt }

  pub or_else-HoldsNode :
      (cs : ConstraintSet) (o : Outcome EqNode) (next : Gen EqNode) (c : Context)
      → Post (HoldsNode cs) o
      → Yields (HoldsNode cs) next
      → Post (HoldsNode cs) (or_else o next c).0
  or_else-HoldsNode cs (built node) next c h n = h
  or_else-HoldsNode cs declined next c h n = n.at c
  or_else-HoldsNode cs (raised e) next c h n = tt

  module _ (b : BaseTable X env base) (lossless : (codec : ValueCodec) → Lossless E codec) where
    -- Every builder gives what the set asks for, if it supports the set and its children hold what
    -- it asked of them.
    pub build-HoldsNode :
        (ask : Ask) (bc : BuilderClass) (cs : ConstraintSet)
        → Meets X env base ask
        → subset (get_constraint_types cs) (supported_constraint_types bc) ≡ true
        → Yields (HoldsNode cs) (build env bc ask cs)
    unfolding build supported_constraint_types same_type HoldsNode
    build-HoldsNode ask (create k) cs m s =
        relation_node-HoldsNode cs _ (build_create-Holds X env base ask m k cs)
    build-HoldsNode ask delete_reinsert cs m s = relation_node-HoldsNode cs _ (
        build_delete_reinsert-Holds X env base ask m cs b
          (no_filter (supported_constraint_types delete_reinsert) cs s refl)
          (no_projection (supported_constraint_types delete_reinsert) cs s refl))
    build-HoldsNode ask noop_update cs m s = relation_node-HoldsNode cs _ (
        build_noop_update-Holds X env base ask m cs b
          (no_filter (supported_constraint_types noop_update) cs s refl)
          (no_projection (supported_constraint_types noop_update) cs s refl))
    build-HoldsNode ask select_star cs m s = defining-HoldsNode cs _ (
        build_select_star-Holds X env base ask cs m
          (no_projection (supported_constraint_types select_star) cs s refl))
    build-HoldsNode ask explicit_projection cs m s = defining-HoldsNode cs _ (
        build_explicit_projection-Holds X env base ask cs b m
          (no_projection (supported_constraint_types explicit_projection) cs s refl))
    build-HoldsNode ask (cte hint) cs m s = defining-HoldsNode cs _ (
        build_cte-Holds X env base ask (cte_label hint) hint cs m
          (no_projection (supported_constraint_types (cte hint)) cs s refl))
    build-HoldsNode ask lateral_reproject cs m s =
        bare-HoldsNode cs _ s (build_lateral_reproject-Holds X env base ask b m)
    build-HoldsNode ask add_drop_column cs m s =
        bare-HoldsNode cs _ s (build_add_drop_column-Holds X env base ask b m)
    build-HoldsNode ask projection_query cs m s =
        defining-HoldsNode cs _ (build_projection-Holds X env base ask cs m)
    build-HoldsNode ask ordered_scan cs m s =
        bare-HoldsNode cs _ s (build_ordered_scan-Holds X env base ask b m)
    build-HoldsNode ask partition_union cs m s = defining-HoldsNode cs _ (
        build_partition_union-Holds X env base ask m cs
          (no_projection (supported_constraint_types partition_union) cs s refl))
    build-HoldsNode ask tlp_partition_union cs m s = defining-HoldsNode cs _ (
        build_tlp_partition_union-Holds X env base ask m cs
          (no_projection (supported_constraint_types tlp_partition_union) cs s refl))
    build-HoldsNode ask union_empty cs m s =
        bare-HoldsNode cs _ s (build_union_empty-Holds X env base ask m)
    build-HoldsNode ask except_empty cs m s =
        bare-HoldsNode cs _ s (build_except_empty-Holds X env base ask m)
    build-HoldsNode ask intersect_self cs m s =
        bare-HoldsNode cs _ s (build_intersect_self-Holds X env base ask m)
    build-HoldsNode ask (uniform_codecs codec) cs m s =
        bare-HoldsNode cs _ s (build_uniform_codec-Holds X env base ask b m codec (lossless codec))
    build-HoldsNode ask mixed_codec cs m s =
        bare-HoldsNode cs _ s
          (build_mixed_codec-Holds X env base ask b m (lossless hex) (lossless json_pack))
    build-HoldsNode ask eet_case_column cs m s =
        bare-HoldsNode cs _ s (build_eet_case-Holds X env base ask b m)
    build-HoldsNode ask eet_determined_filter cs m s = defining-HoldsNode cs _ (
        build_eet_filter-Holds X env base ask b m cs
          (no_projection (supported_constraint_types eet_determined_filter) cs s refl))
    build-HoldsNode ask left_join_empty cs m s =
        bare-HoldsNode cs _ s (build_left_join_empty-Holds X env base ask m b)
    build-HoldsNode ask base_source cs m s =
        base_source-HoldsNode cs (no_filter (supported_constraint_types base_source) cs s refl)
          (no_projection (supported_constraint_types base_source) cs s refl)
