-- ===== src/Equivalence/Contract/Termination.antt =====
-- The recursion of builders on the factory ends: depth grows at every step, and no builder runs at
-- the last level, so that fuel for each level is enough.
use coa.Base.{
  ℕ, zero, suc, ◌+◌, ◌≤◌, ◌<◌, leb, ltb, Bool, true, false, if◌then◌else◌, List, [], ◌∷◌, ◌≡◌, refl,
  ap, arith, all, filter, length,
}
use coa.Base.Text.{Text}
use coa.Config.Weighted.{weighted_shuffle, keyed, sort_keys}
use coa.Equivalence.Ast.{EqNode, source_node, query_node, base_table_source, relation_source}
use coa.Equivalence.Constraints.{ConstraintSet, meets_constraint, exposed_name}
use coa.Equivalence.Context.{
  Context, Environment, Outcome, built, declined, raised, Gen, pure, raise, constraint_violation,
  deadline_exceeded,
}
use coa.Equivalence.Builders.Base.{Ask}
use coa.Equivalence.Factory.Classes.{BuilderClass, Kind, sources, relations, queries}
use coa.Equivalence.Factory.Dispatch.{
  Factory, as_source, as_relation, as_query, build, is_eligible, leaf_only, filter_builders,
  active_weights, check_all, run_builder, leave, enter_builder, or_else, try_builders, dispatch,
  check_deadline, asking, build_subtree, generate,
}
use coa.Equivalence.Contract.Steady.{Steady, Leaves, Steady-bind, Steady-pure, Steady-raise}
use coa.Equivalence.Contract.Depth.{SteadyAsk, build-Steady}

as_source-Steady : {d : ℕ} (node : EqNode) → Steady d (as_source node)
as_source-Steady (source_node s) = Steady-pure s
as_source-Steady (query_node q) = Steady-raise constraint_violation tt

as_relation-Steady : {d : ℕ} (node : EqNode) → Steady d (as_relation node)
as_relation-Steady (source_node (relation_source r)) = Steady-pure r
as_relation-Steady (source_node (base_table_source t)) = Steady-raise constraint_violation tt
as_relation-Steady (query_node q) = Steady-raise constraint_violation tt

as_query-Steady : {d : ℕ} (node : EqNode) → Steady d (as_query node)
as_query-Steady (source_node s) = Steady-raise constraint_violation tt
as_query-Steady (query_node q) = Steady-pure q

asking-SteadyAsk :
    (d : ℕ) (subtree : Kind → ConstraintSet → Gen EqNode)
    → ((kind : Kind) (cs : ConstraintSet) → Steady d (subtree kind cs))
    → SteadyAsk d (asking subtree)
unfolding asking
asking-SteadyAsk d subtree h = record {
  source = λ cs. Steady-bind (subtree sources cs) as_source (h sources cs) as_source-Steady;
  relation =
      λ cs. Steady-bind (subtree relations cs) as_relation (h relations cs) as_relation-Steady;
  query = λ cs. Steady-bind (subtree queries cs) as_query (h queries cs) as_query-Steady;
}

check_all-Steady : {d : ℕ} (node : EqNode) (cs : ConstraintSet) → Steady d (check_all node cs)
check_all-Steady {d} node cs = checked (all (λ k. meets_constraint k node) cs)
  where
    checked : (b : Bool) → Steady d (if b then pure node else raise constraint_violation)
    checked true = Steady-pure node
    checked false = Steady-raise constraint_violation tt

module _ (env : Environment) where
  run_builder-Steady :
      (d : ℕ) (bc : BuilderClass) (ask : Ask) (cs : ConstraintSet)
      → SteadyAsk d ask
      → Steady d (run_builder env bc ask cs)
  unfolding run_builder
  run_builder-Steady d bc ask cs h =
      Steady-bind (build env bc ask cs) _ (build-Steady d env ask h bc cs)
        (λ node. check_all-Steady node cs)

  left :
      (d : ℕ) (bc : BuilderClass) (saved : ℕ) (x : Outcome EqNode × Context)
      → Leaves (d + 1) x
      → Leaves d (x.0, leave bc saved x.0 x.1)
  left d bc saved (built node, c) h = record { fuelled = tt; depth = omega (arith, h.depth) }
  left d bc saved (declined, c) h = record { fuelled = tt; depth = omega (arith, h.depth) }
  left d bc saved (raised e, c) h = record { fuelled = h.fuelled; depth = omega (arith, h.depth) }

  or_else-Leaves :
      (d : ℕ) (x : Outcome EqNode × Context) (next : Gen EqNode)
      → Leaves d x
      → Steady d next
      → Leaves d (or_else x.0 next x.1)
  or_else-Leaves d (built node, c) next h k = record { fuelled = tt; depth = h.depth }
  or_else-Leaves d (declined, c) next h k = k.at c h.depth
  or_else-Leaves d (raised e, c) next h k = record { fuelled = h.fuelled; depth = h.depth }

  try_builders-Steady :
      (d : ℕ) (bcs : List BuilderClass) (ask : Ask) (cs : ConstraintSet)
      → SteadyAsk (d + 1) ask
      → Steady d (try_builders env bcs ask cs)
  unfolding try_builders enter_builder
  try_builders-Steady d [] ask cs h = record { at = λ c e. record { fuelled = tt; depth = e } }
  try_builders-Steady d (bc ∷ bcs) ask cs h = record {
    at = λ c e.
        or_else-Leaves d _ (try_builders env bcs ask cs)
          (left d bc c.node_count (run_builder env bc ask cs (record c { depth = c.depth + 1 })) (
            (run_builder-Steady (d + 1) bc ask cs h).at (record c { depth = c.depth + 1 })
              (ap (λ n. n + 1) e)))
          (try_builders-Steady d bcs ask cs h);
  }

  below :
      {d : ℕ} (c : Context) → c.depth ≡ d → leb env.max_depth c.depth ≡ false → d < env.max_depth
  below c e k = ground (arith, e, k)

  -- below the last level the builders run one level down; at it none runs
  dispatch-Steady :
      (f : Factory) (d : ℕ) (kind : Kind) (ask : Ask) (cs : ConstraintSet)
      → (d < env.max_depth → SteadyAsk (d + 1) ask)
      → Steady d (dispatch env f kind ask cs)
  unfolding dispatch filter_builders weighted_shuffle keyed sort_keys
  dispatch-Steady f d kind ask cs h = record {
    at = λ c e. at_level c e (leb env.max_depth c.depth) refl;
  }
    where
      at_level :
          (c : Context)
          → c.depth ≡ d
          → (b : Bool) → leb env.max_depth c.depth ≡ b
          → (let eligible =
                if b then [] else filter (is_eligible kind cs (leaf_only env c)) f.builders in
              Leaves d (
                try_builders env
                  (weighted_shuffle (active_weights f c) f.race env.draw c.draws eligible)
                  ask
                  cs
                  (record c {
                    draws = c.draws + length (filter (λ b. ltb 0 (active_weights f c b)) eligible);
                  })))
      at_level c e true k = record { fuelled = tt; depth = e }
      at_level c e false k =
          (try_builders-Steady d _ ask cs (h (below c e k))).at
            (record c {
              draws =
                  c.draws
                  + length (
                      filter (λ b. ltb 0 (active_weights f c b))
                        (filter (is_eligible kind cs (leaf_only env c)) f.builders));
            })
            e

  check_deadline-Steady : (d : ℕ) → Steady d (check_deadline env)
  unfolding check_deadline
  check_deadline-Steady d = record { at = λ c e. on_time (env.past_deadline c.clock) c e }
    where
      on_time :
          (b : Bool) (c : Context)
          → c.depth ≡ d
          → Leaves d
              ((if b then raised deadline_exceeded else built tt), record c { clock = c.clock + 1 })
      on_time true c e = record { fuelled = tt; depth = e }
      on_time false c e = record { fuelled = tt; depth = e }

  build_subtree-Steady :
      (f : Factory) (fuel d : ℕ) (kind : Kind) (cs : ConstraintSet)
      → d ≤ env.max_depth
      → env.max_depth < d + fuel
      → Steady d (build_subtree env f fuel kind cs)
  unfolding build_subtree
  build_subtree-Steady f zero d kind cs l h = absurd (empty l h)
    where
      empty : d ≤ env.max_depth → env.max_depth < d + zero → ⊥
      empty l h = omega arith
  build_subtree-Steady f (suc fuel) d kind cs l h =
      Steady-bind (check_deadline env) _ (check_deadline-Steady d) (λ _.
        dispatch-Steady f d kind (asking (build_subtree env f fuel)) cs (λ k.
          asking-SteadyAsk (d + 1) (build_subtree env f fuel)
            (λ kind cs. build_subtree-Steady f fuel (d + 1) kind cs (omega arith) (omega arith))))

  -- With fuel above the depth limit a generation begun at depth 0 does not run out of fuel, and it
  -- comes back at depth 0 whether it builds, declines or raises.
  pub generate-Steady :
      (f : Factory) (fuel : ℕ) (name : Text)
      → env.max_depth < fuel
      → Steady 0 (generate env f fuel name)
  unfolding generate
  generate-Steady f fuel name h =
      Steady-bind (build_subtree env f fuel relations (exposed_name name ∷ [])) as_relation
        (build_subtree-Steady f fuel 0 relations (exposed_name name ∷ []) (omega arith)
          (omega arith))
        as_relation-Steady
