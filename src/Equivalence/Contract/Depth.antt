-- ===== src/Equivalence/Contract/Depth.antt =====
-- Every builder comes back at the depth at which it began, and asks for no fuel of its own.
use coa.Base.{ℕ, Bool, true, false, Option, List}
use coa.Core.Catalog.{Column}
use coa.Ir.Expr.{ExpressionNode, ValueCodec}
use coa.Equivalence.Ast.{ProjectionItem, EquivalentRelation, QueryNode, CreateKind}
use coa.Equivalence.Constraints.{ConstraintSet}
use coa.Equivalence.Context.{Environment, Gen}
use coa.Equivalence.Builders.Base.{Ask, dispatch_source}
use coa.Equivalence.Builders.Creates.{build_create, build_delete_reinsert, build_noop_update}
use coa.Equivalence.Builders.Selects.{
  build_base_table_source, build_select_star, build_explicit_projection, build_cte,
  build_lateral_reproject, build_add_drop_column, build_ordered_scan, build_projection,
  build_left_join_empty, ask_two,
}
use coa.Equivalence.Builders.Partitioning.{
  ask_branch, build_partition_union, build_tlp_partition_union, build_union_empty,
  build_except_empty, build_intersect_self,
}
use coa.Equivalence.Builders.Rewrites.{
  finish_rewrite, build_column_rewrite, eet_case, uniform_codec, drawn_codec_for, build_eet_case,
  build_eet_filter, build_uniform_codec, build_mixed_codec,
}
use coa.Equivalence.Factory.Classes.{
  BuilderClass, create, delete_reinsert, noop_update, select_star, explicit_projection, cte,
  lateral_reproject, add_drop_column, projection_query, ordered_scan, partition_union,
  tlp_partition_union, union_empty, except_empty, intersect_self, uniform_codecs, mixed_codec,
  eet_case_column, eet_determined_filter, left_join_empty, base_source,
}
use coa.Equivalence.Factory.Dispatch.{relation_node, defining, build, cte_label}
use coa.Equivalence.Contract.Steady.{Steady, steady, Steady-bind}
use coa.Equivalence.Contract.Steps.{
  pick_integer_key-Steady, generated-Steady, named_or_minted-Steady, create_as_select-Steady,
  wrap-Steady, mutation_predicate-Steady, build_noop_update_of-Steady, non_empty-Steady,
  both-Steady, free_predicate-Steady, rewrite_columns-Steady, eet_case-Steady, uniform_codec-Steady,
  drawn_codec_for-Steady,
}

pub record SteadyAsk (d : ℕ) (ask : Ask) : Type 0 where
  pub source : (cs : ConstraintSet) → Steady d (ask.source cs)
  pub relation : (cs : ConstraintSet) → Steady d (ask.relation cs)
  pub query : (cs : ConstraintSet) → Steady d (ask.query cs)

module _ (d : ℕ) (env : Environment) where
  module _ (ask : Ask) (h : SteadyAsk d ask) where
    dispatch_source-Steady : (cs : ConstraintSet) → Steady d (dispatch_source ask cs)
    unfolding dispatch_source
    dispatch_source-Steady cs = search (steady, h.source)

    ask_branch-Steady : (cs : ConstraintSet) (p : ExpressionNode) → Steady d (ask_branch ask cs p)
    unfolding ask_branch
    ask_branch-Steady cs p = h.relation _

    ask_two-Steady : (cs ds : ConstraintSet) → Steady d (ask_two ask cs ds)
    unfolding ask_two
    ask_two-Steady cs ds = search (steady, both-Steady, h.relation)

    finish_rewrite-Steady : (x : List ProjectionItem × Bool) → Steady d (finish_rewrite ask x)
    finish_rewrite-Steady (items, false) = search steady
    finish_rewrite-Steady (items, true) = search (steady, dispatch_source-Steady)

    build_column_rewrite-Steady :
        (rewrite : Column → Gen (Option ExpressionNode))
        → ((c : Column) → Steady d (rewrite c))
        → Steady d (build_column_rewrite env rewrite ask)
    unfolding build_column_rewrite
    build_column_rewrite-Steady rewrite k =
        Steady-bind _ _ ((rewrite_columns-Steady d env) rewrite env.base_table.columns k)
          finish_rewrite-Steady

    relation_node-Steady : (m : Gen EquivalentRelation) → Steady d m → Steady d (relation_node m)
    relation_node-Steady m k = search (steady, k)

    defining-Steady : (m : Gen QueryNode) → Steady d m → Steady d (defining m)
    defining-Steady m k = search (steady, k)

    build_create-Steady :
        (k : CreateKind) (cs : ConstraintSet) → Steady d (build_create env k ask cs)
    unfolding build_create
    build_create-Steady k cs = search (steady, h.query, wrap-Steady)

    build_delete_reinsert-Steady :
        (cs : ConstraintSet) → Steady d (build_delete_reinsert env ask cs)
    unfolding build_delete_reinsert
    build_delete_reinsert-Steady cs =
        search (steady, h.query, mutation_predicate-Steady, named_or_minted-Steady)

    build_noop_update-Steady : (cs : ConstraintSet) → Steady d (build_noop_update env ask cs)
    unfolding build_noop_update
    build_noop_update-Steady cs = search (steady, h.query, build_noop_update_of-Steady)

    build_select_star-Steady : (cs : ConstraintSet) → Steady d (build_select_star ask cs)
    unfolding build_select_star
    build_select_star-Steady cs = search (steady, dispatch_source-Steady)

    build_explicit_projection-Steady :
        (cs : ConstraintSet) → Steady d (build_explicit_projection env ask cs)
    unfolding build_explicit_projection
    build_explicit_projection-Steady cs = search (steady, dispatch_source-Steady, non_empty-Steady)

    build_cte-Steady :
        (hint : Option Bool) (cs : ConstraintSet)
        → Steady d (build_cte env (cte_label hint) hint ask cs)
    unfolding build_cte
    build_cte-Steady hint cs = search (steady, dispatch_source-Steady)

    build_lateral_reproject-Steady : Steady d (build_lateral_reproject ask)
    unfolding build_lateral_reproject
    build_lateral_reproject-Steady = search (steady, dispatch_source-Steady, non_empty-Steady)

    build_add_drop_column-Steady : Steady d (build_add_drop_column env ask)
    unfolding build_add_drop_column
    build_add_drop_column-Steady =
        search (steady, dispatch_source-Steady, non_empty-Steady, create_as_select-Steady) depth 9

    build_projection-Steady : (cs : ConstraintSet) → Steady d (build_projection ask cs)
    unfolding build_projection
    build_projection-Steady cs = search (steady, dispatch_source-Steady)

    build_ordered_scan-Steady : Steady d (build_ordered_scan env ask)
    unfolding build_ordered_scan
    build_ordered_scan-Steady = search (steady, dispatch_source-Steady, non_empty-Steady)

    build_partition_union-Steady :
        (cs : ConstraintSet) → Steady d (build_partition_union env ask cs)
    unfolding build_partition_union
    build_partition_union-Steady cs =
        search (steady, pick_integer_key-Steady, ask_branch-Steady) depth 9

    build_tlp_partition_union-Steady :
        (cs : ConstraintSet) → Steady d (build_tlp_partition_union env ask cs)
    unfolding build_tlp_partition_union
    build_tlp_partition_union-Steady cs =
        search (steady, generated-Steady, ask_branch-Steady) depth 9

    build_union_empty-Steady : Steady d (build_union_empty ask)
    unfolding build_union_empty
    build_union_empty-Steady = search (steady, ask_two-Steady)

    build_except_empty-Steady : Steady d (build_except_empty ask)
    unfolding build_except_empty
    build_except_empty-Steady = search (steady, ask_two-Steady)

    build_intersect_self-Steady : Steady d (build_intersect_self ask)
    unfolding build_intersect_self
    build_intersect_self-Steady = search (steady, ask_two-Steady)

    build_uniform_codec-Steady : (codec : ValueCodec) → Steady d (build_uniform_codec env codec ask)
    unfolding build_uniform_codec
    build_uniform_codec-Steady codec =
        build_column_rewrite-Steady (uniform_codec codec) ((uniform_codec-Steady d env) codec)

    build_mixed_codec-Steady : Steady d (build_mixed_codec env ask)
    unfolding build_mixed_codec
    build_mixed_codec-Steady =
        build_column_rewrite-Steady (drawn_codec_for env) (drawn_codec_for-Steady d env)

    build_eet_case-Steady : Steady d (build_eet_case env ask)
    unfolding build_eet_case
    build_eet_case-Steady =
        Steady-bind _ _ (free_predicate-Steady d env)
          (λ p. build_column_rewrite-Steady (eet_case env) (eet_case-Steady d env))

    build_eet_filter-Steady : (cs : ConstraintSet) → Steady d (build_eet_filter env ask cs)
    unfolding build_eet_filter
    build_eet_filter-Steady cs = search (steady, dispatch_source-Steady, free_predicate-Steady)

    build_left_join_empty-Steady : Steady d (build_left_join_empty env ask)
    unfolding build_left_join_empty
    build_left_join_empty-Steady = search (steady, ask_two-Steady, non_empty-Steady)

    pub build-Steady : (bc : BuilderClass) (cs : ConstraintSet) → Steady d (build env bc ask cs)
    unfolding build build_base_table_source
    build-Steady (create k) cs =
        relation_node-Steady (build_create env k ask cs) (build_create-Steady k cs)
    build-Steady delete_reinsert cs =
        relation_node-Steady (build_delete_reinsert env ask cs) (build_delete_reinsert-Steady cs)
    build-Steady noop_update cs =
        relation_node-Steady (build_noop_update env ask cs) (build_noop_update-Steady cs)
    build-Steady select_star cs =
        defining-Steady (build_select_star ask cs) (build_select_star-Steady cs)
    build-Steady explicit_projection cs =
        defining-Steady (build_explicit_projection env ask cs) (build_explicit_projection-Steady cs)
    build-Steady (cte hint) cs =
        defining-Steady (build_cte env (cte_label hint) hint ask cs) (build_cte-Steady hint cs)
    build-Steady lateral_reproject cs =
        defining-Steady (build_lateral_reproject ask) build_lateral_reproject-Steady
    build-Steady add_drop_column cs =
        defining-Steady (build_add_drop_column env ask) build_add_drop_column-Steady
    build-Steady projection_query cs =
        defining-Steady (build_projection ask cs) (build_projection-Steady cs)
    build-Steady ordered_scan cs =
        defining-Steady (build_ordered_scan env ask) build_ordered_scan-Steady
    build-Steady partition_union cs =
        defining-Steady (build_partition_union env ask cs) (build_partition_union-Steady cs)
    build-Steady tlp_partition_union cs =
        defining-Steady (build_tlp_partition_union env ask cs) (build_tlp_partition_union-Steady cs)
    build-Steady union_empty cs = defining-Steady (build_union_empty ask) build_union_empty-Steady
    build-Steady except_empty cs =
        defining-Steady (build_except_empty ask) build_except_empty-Steady
    build-Steady intersect_self cs =
        defining-Steady (build_intersect_self ask) build_intersect_self-Steady
    build-Steady (uniform_codecs codec) cs =
        defining-Steady (build_uniform_codec env codec ask) (build_uniform_codec-Steady codec)
    build-Steady mixed_codec cs =
        defining-Steady (build_mixed_codec env ask) build_mixed_codec-Steady
    build-Steady eet_case_column cs = defining-Steady (build_eet_case env ask) build_eet_case-Steady
    build-Steady eet_determined_filter cs =
        defining-Steady (build_eet_filter env ask cs) (build_eet_filter-Steady cs)
    build-Steady left_join_empty cs =
        defining-Steady (build_left_join_empty env ask) build_left_join_empty-Steady
    build-Steady base_source cs = search steady
