-- ===== src/Equivalence/Contract/Splits.antt =====
-- The builders that split a relation's rows into branches: no row is lost and none stands twice, NULL keys and unknown conditions included.
use mathlib.Core.List.{Perm}
use mathlib.Core.List.Perm
use coa.Base.{
  Bool, true, false, not, ◌&&◌, ◌||◌, Option, none, some, List, [], ◌∷◌, ◌++◌, ◌≡◌, refl, sym, ap,
  ◌∙◌, filter, filter_congr, perm_of_eq, perm_merge,
}
use coa.Ir.Expr.{ExpressionNode, conjoin, col, not_expr, is_null}
use coa.Equivalence.Ast.{
  EquivalentRelation, two, more, union_all_query, signature_of_relation, signature_of_query,
  signature_of_branches,
}
use coa.Equivalence.Constraints.{
  ConstraintSet, row_filter, current_filter, get_optional_constraint, type_of, same_type,
}
use coa.Equivalence.Context.{Environment}
use coa.Equivalence.Builders.Base.{Ask, generated, pick_integer_key}
use coa.Equivalence.Builders.Partitioning.{
  ask_branch, even_half, odd_half, build_partition_union, build_tlp_partition_union,
}
use coa.Equivalence.Contract.Yields.{Yields, Yields-bind, Yields-then, Yields-pure}
use coa.Equivalence.Contract.Promise.{
  Holds, HoldsQuery, Meets, projection, filtered, filtered-Holds, Holds-filtered,
}
use coa.Sql.Truth.{Truth, yes_true, yes_false, unknown, holds, not3, is_unknown}
use coa.Sql.Engine.{Engine}
use coa.Sql.Logic.{keeps, keeps-conjoin, three_way, parity_halves}
use coa.Sql.Executor.{Executor, Row}
use coa.Sql.Denotation.{rows_of_relation, rows_of_query, rows_of_branches}

and_apart : (a b c : Bool) → (b && c) ≡ false → ((a && b) && (a && c)) ≡ false
and_apart true b c h = h
and_apart false b c h = refl

and_over : (a b c : Bool) → ((a && b) || (a && c)) ≡ (a && (b || c))
and_over true b c = refl
and_over false b c = refl

and_true : (a : Bool) → (a && true) ≡ a
and_true true = refl
and_true false = refl

module _ {E : Engine} (X : Executor E) (env : Environment) (base : List (Row E)) where
  abbrev k : Option ExpressionNode → Row E → Bool
  k = keeps E

  -- Two branches whose conditions never hold together merge into the branch of their disjunction.
  merge_branches :
      (cf : Option ExpressionNode) (p q : ExpressionNode) (u : Row E → Bool)
      → ((r : Row E) → (k (some p) r && k (some q) r) ≡ false)
      → ((r : Row E) → u r ≡ (k (some p) r || k (some q) r))
      → Perm
          (filtered X env base (some (conjoin cf p)) ++ filtered X env base (some (conjoin cf q)))
          (filter (λ r. k cf r && u r) base)
  merge_branches cf p q u d h =
      perm_merge (k (some (conjoin cf p))) (k (some (conjoin cf q))) (λ r. k cf r && u r) base
        (λ r.
          rw (keeps-conjoin E r cf p, keeps-conjoin E r cf q)
            (and_apart (k cf r) (k (some p) r) (k (some q) r) (d r)))
        (λ r.
          rw (keeps-conjoin E r cf p, keeps-conjoin E r cf q, h r)
            (sym (and_over (k cf r) (k (some p) r) (k (some q) r))))

  apart_not : (b c : Bool) → c ≡ not b → ((b && c) ≡ false) × (true ≡ (b || c))
  apart_not true c h = rw h (refl, refl)
  apart_not false c h = rw h (refl, refl)

  -- The two parity branches hold every row of the filter once, rows with a NULL key included.
  parity_split :
      (cf : Option ExpressionNode) (key : ExpressionNode)
      → Perm
          (filtered X env base (some (conjoin cf (even_half key)))
            ++ filtered X env base (some (conjoin cf (odd_half key))))
          (filtered X env base cf)
  parity_split cf key =
      Perm.trans
        (merge_branches cf (even_half key) (odd_half key) (λ r. true)
          (λ r.
            (apart_not (k (some (even_half key)) r) (k (some (odd_half key)) r)
              (parity_halves E r key)).0)
          (λ r.
            (apart_not (k (some (even_half key)) r) (k (some (odd_half key)) r)
              (parity_halves E r key)).1))
        (perm_of_eq (filter_congr (λ r. k cf r && true) (k cf) base (λ r. and_true (k cf r))))

  record Three (t n f : Bool) : Type 0 where
    inner : (f && n) ≡ false
    outer : (t && (f || n)) ≡ false
    whole : true ≡ (t || (f || n))

  truth_cases :
      (t : Truth) (n f : Bool) → n ≡ is_unknown t → f ≡ holds (not3 t) → Three (holds t) n f
  truth_cases yes_true n f h g = rw (h, g) (record { inner = refl; outer = refl; whole = refl })
  truth_cases yes_false n f h g = rw (h, g) (record { inner = refl; outer = refl; whole = refl })
  truth_cases unknown n f h g = rw (h, g) (record { inner = refl; outer = refl; whole = refl })

  three :
      (p : ExpressionNode) (r : Row E)
      → Three (k (some p) r) (k (some (is_null p)) r) (k (some (not_expr p)) r)
  three p r = truth_cases (E.truth_of r p) _ _ (three_way E r p).0 (three_way E r p).1

  -- The three branches of a condition hold every row of the filter once, rows at which the
  -- condition is unknown included.
  truth_split :
      (cf : Option ExpressionNode) (p : ExpressionNode)
      → Perm
          (filtered X env base (some (conjoin cf p))
            ++ (filtered X env base (some (conjoin cf (not_expr p)))
                ++ filtered X env base (some (conjoin cf (is_null p)))))
          (filtered X env base cf)
  truth_split cf p =
      let rest = λ (r : Row E). k (some (not_expr p)) r || k (some (is_null p)) r in
      Perm.trans
        (Perm.append_left (filtered X env base (some (conjoin cf p)))
          (merge_branches cf (not_expr p) (is_null p) rest (λ r. (three p r).inner) (λ r. refl)))
        (perm_merge (k (some (conjoin cf p))) (λ r. k cf r && rest r) (k cf) base
          (λ r.
            rw (keeps-conjoin E r cf p)
              (and_apart (k cf r) (k (some p) r) (rest r) (three p r).outer))
          (λ r. rw (keeps-conjoin E r cf p) (
            sym (
              and_over (k cf r) (k (some p) r) (rest r)
              ∙ ap (λ b. k cf r && b) (sym (three p r).whole)
              ∙ and_true (k cf r)))))

  module _ (ask : Ask) (m : Meets X env base ask) where
    -- what a branch holds
    HoldsFiltered : Option ExpressionNode → EquivalentRelation → Type 0
    HoldsFiltered p r =
        Holds X env base p none (rows_of_relation X base r) (signature_of_relation r)

    ask_branch-Holds :
        (cs : ConstraintSet) (p : ExpressionNode)
        → Yields (HoldsFiltered (some (conjoin (current_filter cs) p))) (ask_branch ask cs p)
    unfolding ask_branch HoldsFiltered current_filter projection get_optional_constraint type_of
        same_type
    ask_branch-Holds cs p =
        m.relation (row_filter (conjoin (current_filter cs) p) ∷ [])
          (record { untagged = refl; unkeyed = refl })

    -- From a factory that meets the contract for each request (`Meets`), for a set with no rewrite:
    -- the union of the halves by parity of a key, if it is built, holds each row of the set's
    -- filter once, rows with a NULL key included.
    pub build_partition_union-Holds :
        (cs : ConstraintSet)
        → projection cs ≡ none
        → Yields (HoldsQuery X env base cs) (build_partition_union env ask cs)
    unfolding build_partition_union rows_of_query rows_of_branches signature_of_query
        signature_of_branches HoldsFiltered
    build_partition_union-Holds cs e = Yields-then (pick_integer_key env) _ (λ key.
        let part = col key.name key.data_type in
        Yields-bind (ask_branch ask cs (even_half part)) _ (ask_branch-Holds cs (even_half part))
          (λ even he.
            Yields-bind (ask_branch ask cs (odd_half part)) _ (ask_branch-Holds cs (odd_half part))
              (λ odd ho. Yields-pure (union_all_query (two even odd)) (
                rw e (
                  filtered-Holds X env base
                    (Perm.trans (X.union_all_rows _ _) (
                      Perm.trans
                        (Perm.append (Holds-filtered X env base he) (Holds-filtered X env base ho))
                        (parity_split (current_filter cs) part)))
                    he.named)))))

    -- From a factory that meets the contract for each request (`Meets`), for a set with no rewrite:
    -- the union of the branches where a generated condition is true, false and NULL, if it is
    -- built, holds each row of the set's filter once, rows at which the condition is unknown
    -- included.
    pub build_tlp_partition_union-Holds :
        (cs : ConstraintSet)
        → projection cs ≡ none
        → Yields (HoldsQuery X env base cs) (build_tlp_partition_union env ask cs)
    unfolding build_tlp_partition_union rows_of_query rows_of_branches signature_of_query
        signature_of_branches HoldsFiltered
    build_tlp_partition_union-Holds cs e = Yields-then (generated env) _ (λ p.
        Yields-bind (ask_branch ask cs p) _ (ask_branch-Holds cs p) (λ where_true ht.
          Yields-bind (ask_branch ask cs (not_expr p)) _ (ask_branch-Holds cs (not_expr p))
            (λ where_false hf.
              Yields-bind (ask_branch ask cs (is_null p)) _ (ask_branch-Holds cs (is_null p))
                (λ where_null hn.
                  Yields-pure (union_all_query (more where_true (two where_false where_null))) (
                    rw e (
                      filtered-Holds X env base
                        (Perm.trans (X.union_all_rows _ _) (
                          Perm.trans
                            (Perm.append (Holds-filtered X env base ht) (
                              Perm.trans (X.union_all_rows _ _) (
                                Perm.append (Holds-filtered X env base hf)
                                  (Holds-filtered X env base hn))))
                            (truth_split (current_filter cs) p)))
                        ht.named))))))
