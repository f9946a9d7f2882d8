-- ===== src/Equivalence/Factory/Dispatch.antt =====
-- eqgen/builder/builder.py, weighted_factory.py and interfaces.py: filtering the builders, ordering
-- them by weight, and running one after another until one builds. The recursion of builders on the
-- factory is bounded by fuel; `Factory` says what a run of the program is given.
use coa.Base.{
  ℕ, zero, suc, ◌+◌, ◌-◌, ltb, leb, Bool, true, false, not, ◌&&◌, ◌||◌, if◌then◌else◌, Option, none,
  some, List, [], ◌∷◌, all, any, filter, length,
}
use coa.Base.Text.{Text, codes}
use coa.Config.Weighted.{weighted_shuffle}
use coa.Equivalence.Ast.{
  Source, relation_source, EquivalentRelation, QueryNode, EqNode, source_node, query_node,
}
use coa.Equivalence.Constraints.{
  ConstraintType, ConstraintSet, same_type, exposed_name, get_constraint_types, meets_constraint,
}
use coa.Equivalence.Context.{
  get_count, set_count, Context, Environment, Outcome, built, declined, raised, deadline_exceeded,
  constraint_violation, out_of_fuel, Gen, pure, raise, ◌>>=◌,
}
use coa.Equivalence.Builders.Base.{Ask}
use coa.Equivalence.Builders.Creates.{build_create, build_delete_reinsert, build_noop_update}
use coa.Equivalence.Builders.Selects.{
  build_base_table_source, build_select_star, build_explicit_projection, build_cte,
  build_lateral_reproject, build_add_drop_column, build_ordered_scan, build_projection,
  build_left_join_empty,
}
use coa.Equivalence.Builders.Partitioning.{
  build_partition_union, build_tlp_partition_union, build_union_empty, build_except_empty,
  build_intersect_self,
}
use coa.Equivalence.Builders.Rewrites.{
  build_eet_case, build_eet_filter, build_uniform_codec, build_mixed_codec,
}
use coa.Equivalence.Factory.Classes.{
  BuilderClass, create, delete_reinsert, noop_update, select_star, explicit_projection, cte,
  lateral_reproject, add_drop_column, projection_query, ordered_scan, partition_union,
  tlp_partition_union, union_empty, except_empty, intersect_self, uniform_codecs, mixed_codec,
  eet_case_column, eet_determined_filter, left_join_empty, base_source, Kind, sources, relations,
  queries, result_type, is_subclass, supported_constraint_types, required_constraint_types, is_leaf,
  class_name,
}

-- the registered builders, their weights, the root's own weights where it has any, and the key that
-- a random number and a weight give in a shuffle
pub record Factory : Type 0 where
  pub builders : List BuilderClass
  pub builder_weights : BuilderClass → ℕ
  pub root_builder_weights : Option (BuilderClass → ℕ)
  pub race : ℕ → ℕ → ℕ

-- `frozenset(ts) <= frozenset(us)`
abbrev pub subset : List ConstraintType → List ConstraintType → Bool
subset ts us = all (λ t. any (same_type t) us) ts

-- `build_subtree(QueryNode, ...)` and its siblings: the result is an instance of what was asked for
abbrev pub as_source : EqNode → Gen Source
as_source (source_node s) = pure s
as_source (query_node q) = raise constraint_violation

abbrev pub as_relation : EqNode → Gen EquivalentRelation
as_relation (source_node (relation_source r)) = pure r
as_relation _ = raise constraint_violation

abbrev pub as_query : EqNode → Gen QueryNode
as_query (query_node q) = pure q
as_query _ = raise constraint_violation

abbrev pub relation_node : Gen EquivalentRelation → Gen EqNode
relation_node m = m >>= λ r. pure (source_node (relation_source r))

abbrev pub defining : Gen QueryNode → Gen EqNode
defining m = m >>= λ q. pure (query_node q)

abbrev pub cte_label : Option Bool → Text
cte_label none = codes "cte"
cte_label (some true) = codes "mcte"
cte_label (some false) = codes "nmcte"

-- one builder's `_build`
unfoldable pub build : Environment → BuilderClass → Ask → ConstraintSet → Gen EqNode
build env (create k) ask cs = relation_node (build_create env k ask cs)
build env delete_reinsert ask cs = relation_node (build_delete_reinsert env ask cs)
build env noop_update ask cs = relation_node (build_noop_update env ask cs)
build env select_star ask cs = defining (build_select_star ask cs)
build env explicit_projection ask cs = defining (build_explicit_projection env ask cs)
build env (cte hint) ask cs = defining (build_cte env (cte_label hint) hint ask cs)
build env lateral_reproject ask cs = defining (build_lateral_reproject ask)
build env add_drop_column ask cs = defining (build_add_drop_column env ask)
build env projection_query ask cs = defining (build_projection ask cs)
build env ordered_scan ask cs = defining (build_ordered_scan env ask)
build env partition_union ask cs = defining (build_partition_union env ask cs)
build env tlp_partition_union ask cs = defining (build_tlp_partition_union env ask cs)
build env union_empty ask cs = defining (build_union_empty ask)
build env except_empty ask cs = defining (build_except_empty ask)
build env intersect_self ask cs = defining (build_intersect_self ask)
build env (uniform_codecs codec) ask cs = defining (build_uniform_codec env codec ask)
build env mixed_codec ask cs = defining (build_mixed_codec env ask)
build env eet_case_column ask cs = defining (build_eet_case env ask)
build env eet_determined_filter ask cs = defining (build_eet_filter env ask cs)
build env left_join_empty ask cs = defining (build_left_join_empty env ask)
build env base_source ask cs = build_base_table_source env >>= λ s. pure (source_node s)

abbrev exhausted : ℕ → ℕ → Bool
exhausted budget used = ltb 0 budget && leb budget used

-- `leaf_only`: at the last level, or once a budget is used up
unfoldable pub leaf_only : Environment → Context → Bool
leaf_only env c =
    leb env.max_depth (c.depth + 1)
    || exhausted env.max_nodes c.node_count
    || exhausted env.max_attempts c.nodes_attempted

-- the loop's body of `_filter_builders`
unfoldable pub is_eligible : Kind → ConstraintSet → Bool → BuilderClass → Bool
is_eligible kind cs leaves b =
    subset (get_constraint_types cs) (supported_constraint_types b)
    && is_subclass (result_type b) kind
    && subset (required_constraint_types b) (get_constraint_types cs)
    && (not leaves || is_leaf b)

-- `_filter_builders`; the empty list stands for `None`
unfoldable pub filter_builders :
    Environment → Factory → Kind → ConstraintSet → Context → List BuilderClass
unfolding is_eligible leaf_only
filter_builders env f kind cs c =
    if leb env.max_depth c.depth
    then []
    else filter (is_eligible kind cs (leaf_only env c)) f.builders

-- `_active_weight_cache`: the root's own weights at depth 0, where it has any
unfoldable pub active_weights : Factory → Context → BuilderClass → ℕ
active_weights f c b = elim f.root_builder_weights [
  | none ↦ f.builder_weights b
  | some root ↦ if leb 1 c.depth then f.builder_weights b else root b
]

abbrev pub check_all : EqNode → ConstraintSet → Gen EqNode
check_all node cs =
    if all (λ k. meets_constraint k node) cs then pure node else raise constraint_violation

-- `_run_builder`: what is built must meet every constraint
unfoldable pub run_builder : Environment → BuilderClass → Ask → ConstraintSet → Gen EqNode
unfolding ◌>>=◌ build
run_builder env b ask cs = do node ← build env b ask cs; check_all node cs

-- the end of `_enter_builder`: `commit` counts the node and the choice, a build that returns
-- nothing or raises gives its children's nodes back
abbrev pub leave : BuilderClass → ℕ → Outcome EqNode → Context → Context
leave b saved (built node) c = record c {
  depth = c.depth - 1;
  node_count = c.node_count + 1;
  nodes_attempted = c.nodes_attempted + 1;
  chosen = set_count (class_name b) (get_count (class_name b) c.chosen + 1) c.chosen;
}
leave b saved declined c = record c { depth = c.depth - 1; node_count = saved }
leave b saved (raised e) c = record c { depth = c.depth - 1; node_count = saved }

-- `with context._enter_builder(builder) as commit`
unfoldable pub enter_builder : BuilderClass → Gen EqNode → Gen EqNode
enter_builder b m c =
    let (o, c') = m (record c { depth = c.depth + 1 }) in (o, leave b c.node_count o c')

abbrev pub or_else : Outcome EqNode → Gen EqNode → Context → Outcome EqNode × Context
or_else (built node) next c = (built node, c)
or_else declined next c = next c
or_else (raised e) next c = (raised e, c)

-- the loop of `_dispatch`: the first builder that builds, and none when none does
unfoldable pub try_builders : Environment → List BuilderClass → Ask → ConstraintSet → Gen EqNode
unfolding enter_builder run_builder
try_builders env [] ask cs c = (declined, c)
try_builders env (b ∷ bs) ask cs c =
    let (o, c') = enter_builder b (run_builder env b ask cs) c in
    or_else o (try_builders env bs ask cs) c'

-- `WeightedBuilderFactory._dispatch`
unfoldable pub dispatch : Environment → Factory → Kind → Ask → ConstraintSet → Gen EqNode
unfolding filter_builders active_weights try_builders
dispatch env f kind ask cs c =
    let eligible = filter_builders env f kind cs c in
    let ordered = weighted_shuffle (active_weights f c) f.race env.draw c.draws eligible in
    try_builders env ordered ask cs
      (record c { draws = c.draws + length (filter (λ b. ltb 0 (active_weights f c b)) eligible) })

-- `check_deadline`
unfoldable pub check_deadline : Environment → Gen (Unit {0})
check_deadline env c = (
  (if env.past_deadline c.clock then raised deadline_exceeded else built tt),
  record c { clock = c.clock + 1 },
)

-- the factory as the builders see it
unfoldable pub asking : (Kind → ConstraintSet → Gen EqNode) → Ask
asking subtree = record {
  source = λ cs. subtree sources cs >>= as_source;
  relation = λ cs. subtree relations cs >>= as_relation;
  query = λ cs. subtree queries cs >>= as_query;
}

-- `build_subtree`, which the builders call again
unfoldable pub build_subtree : Environment → Factory → ℕ → Kind → ConstraintSet → Gen EqNode
unfolding ◌>>=◌ check_deadline dispatch asking
build_subtree env f zero kind cs = raise out_of_fuel
build_subtree env f (suc fuel) kind cs =
    check_deadline env >>= λ _. dispatch env f kind (asking (build_subtree env f fuel)) cs

-- `EquivalenceGenerator.generate`: the root takes the name that the workload reads; none is the
-- `ValueError`
unfoldable pub generate : Environment → Factory → ℕ → Text → Gen EquivalentRelation
unfolding ◌>>=◌ build_subtree
generate env f fuel root_name =
    build_subtree env f fuel relations (exposed_name root_name ∷ []) >>= as_relation
