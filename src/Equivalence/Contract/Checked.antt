-- ===== src/Equivalence/Contract/Checked.antt =====
-- What the factory hands out has passed the check of every constraint, the root's name included.
use coa.Base.{
  ℕ, zero, suc, ◌+◌, Bool, true, false, ◌&&◌, if◌then◌else◌, List, [], ◌∷◌, ◌≡◌, refl, all, length,
  filter, ltb,
}
use coa.Base.Text.{Text, text_eq, text_eq_iff}
use coa.Config.Weighted.{weighted_shuffle}
use coa.Equivalence.Ast.{
  EqNode, source_node, query_node, base_table_source, relation_source, materialized_name,
}
use coa.Equivalence.Constraints.{ConstraintSet, meets_constraint, exposed_name, takes_name}
use coa.Equivalence.Context.{
  Context, Environment, Outcome, built, declined, raised, Gen, pure, raise, constraint_violation,
}
use coa.Equivalence.Builders.Base.{Ask}
use coa.Equivalence.Factory.Classes.{BuilderClass, Kind, relations}
use coa.Equivalence.Factory.Dispatch.{
  Factory, as_relation, build, filter_builders, active_weights, check_all, run_builder,
  enter_builder, or_else, try_builders, dispatch, check_deadline, asking, build_subtree, generate,
}
use coa.Equivalence.Contract.Yields.{Post, Yields, Yields-bind, Yields-then, Yields-pure}

first_true : (a : Bool) → (a && true) ≡ true → a ≡ true
first_true true h = refl
first_true false h = h

abbrev pub MeetsAll : ConstraintSet → EqNode → Type 0
MeetsAll cs node = all (λ k. meets_constraint k node) cs ≡ true

check_all-MeetsAll : (node : EqNode) (cs : ConstraintSet) → Yields (MeetsAll cs) (check_all node cs)
check_all-MeetsAll node cs = checked (all (λ k. meets_constraint k node) cs) refl
  where
    checked :
        (b : Bool)
        → all (λ k. meets_constraint k node) cs ≡ b
        → Yields (MeetsAll cs) (if b then pure node else raise constraint_violation)
    checked true e = Yields-pure node e
    checked false e = record { at = λ c. tt }

or_else-MeetsAll :
    (cs : ConstraintSet) (o : Outcome EqNode) (next : Gen EqNode) (c : Context)
    → Post (MeetsAll cs) o
    → Yields (MeetsAll cs) next
    → Post (MeetsAll cs) (or_else o next c).0
or_else-MeetsAll cs (built node) next c h n = h
or_else-MeetsAll cs declined next c h n = n.at c
or_else-MeetsAll cs (raised e) next c h n = tt

try_builders-MeetsAll :
    (env : Environment) (bcs : List BuilderClass) (ask : Ask) (cs : ConstraintSet)
    → Yields (MeetsAll cs) (try_builders env bcs ask cs)
unfolding try_builders enter_builder run_builder
try_builders-MeetsAll env [] ask cs = record { at = λ c. tt }
try_builders-MeetsAll env (bc ∷ bcs) ask cs =
    let run =
      Yields-then (build env bc ask cs) (λ node. check_all node cs)
        (λ node. check_all-MeetsAll node cs) in
    record {
      at = λ c.
          or_else-MeetsAll cs (run_builder env bc ask cs (record c { depth = c.depth + 1 })).0
            (try_builders env bcs ask cs) _ (run.at (record c { depth = c.depth + 1 }))
            (try_builders-MeetsAll env bcs ask cs);
    }

-- A node that `build_subtree` returns meets every constraint of the set that it was asked for.
pub build_subtree-MeetsAll :
    (env : Environment) (f : Factory) (fuel : ℕ) (kind : Kind) (cs : ConstraintSet)
    → Yields (MeetsAll cs) (build_subtree env f fuel kind cs)
unfolding build_subtree dispatch
build_subtree-MeetsAll env f zero kind cs = record { at = λ c. tt }
build_subtree-MeetsAll env f (suc fuel) kind cs = Yields-then (check_deadline env) _ (λ _. record {
  at = λ c.
      (try_builders-MeetsAll env
          (weighted_shuffle (active_weights f c) f.race env.draw c.draws
            (filter_builders env f kind cs c))
          (asking (build_subtree env f fuel)) cs).at
        (record c {
          draws =
              c.draws
              + length
                  (filter (λ b. ltb 0 (active_weights f c b)) (filter_builders env f kind cs c));
        });
})

-- The relation that a generation returns bears the name that the workload reads.
pub generate-name :
    (env : Environment) (f : Factory) (fuel : ℕ) (name : Text)
    → Yields (λ r. materialized_name r ≡ name) (generate env f fuel name)
unfolding generate meets_constraint takes_name
generate-name env f fuel name =
    Yields-bind (build_subtree env f fuel relations (exposed_name name ∷ [])) as_relation
      (build_subtree-MeetsAll env f fuel relations (exposed_name name ∷ [])) named
  where
    named :
        (node : EqNode)
        → MeetsAll (exposed_name name ∷ []) node
        → Yields (λ r. materialized_name r ≡ name) (as_relation node)
    named (source_node (relation_source r)) h = Yields-pure r (
        (text_eq_iff (materialized_name r) name).0
          (first_true (text_eq (materialized_name r) name) h))
    named (source_node (base_table_source t)) h = record { at = λ c. tt }
    named (query_node q) h = record { at = λ c. tt }
