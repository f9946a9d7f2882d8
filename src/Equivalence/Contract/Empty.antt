-- ===== src/Equivalence/Contract/Empty.antt =====
-- The builders that ask for a relation twice, or for one that has no rows, and put the two together.
use mathlib.Core.List.{Perm, perm-append_left_iff, eq-nil_iff_forall_not-mem}
use mathlib.Core.List.Perm
use coa.Base.{
  Option, none, some, List, [], ◌∷◌, ◌++◌, ◌≡◌, refl, ap, subst, map, append-nil, filter_none,
  perm_of_eq,
}
use coa.Core.Catalog.{Named, signature}
use coa.Ir.Expr.{ExpressionNode}
use coa.Equivalence.Ast.{
  EquivalentRelation, signature_of_relation, signature_of_query, signature_of_branches, named_item,
}
use coa.Equivalence.Constraints.{
  ConstraintSet, row_filter, current_filter, get_optional_constraint, type_of, same_type,
}
use coa.Equivalence.Context.{Environment, optional}
use coa.Equivalence.Builders.Base.{Ask, passthrough_items}
use coa.Equivalence.Builders.Selects.{ask_two, both, empty_filter, non_empty, build_left_join_empty}
use coa.Equivalence.Builders.Partitioning.{
  build_union_empty, build_except_empty, build_intersect_self,
}
use coa.Equivalence.Contract.Yields.{
  Yields, IfSome, Yields-bind, Yields-then, Yields-pure, Yields-optional, Yields-decline,
}
use coa.Equivalence.Contract.Promise.{
  Holds, HoldsQuery, Meets, BaseTable, Plain, projection, filtered, Holds-filtered, base-Holds,
  Holds-rows,
}
use coa.Equivalence.Contract.Columns.{restricted-rows}
use coa.Base.Text.{Text, codes}
use coa.Sql.Engine.{Engine}
use coa.Sql.Logic.{keeps, false_literal}
use coa.Sql.Executor.{Executor, Row, names, qualified_items}
use coa.Sql.Denotation.{rows_of_relation, rows_of_query, rows_of_branches}

qualified_names :
    (la : Text) (ns : List Named) → names (map named_item (qualified_items la ns)) ≡ names ns
qualified_names la [] = refl
qualified_names la (n ∷ ns) = ap (λ xs. n.alias ∷ xs) (qualified_names la ns)

module _ {E : Engine} (X : Executor E) (env : Environment) (base : List (Row E)) where
  -- A row that no condition keeps is in no branch that `1 = 0` filters.
  empty-filtered : filtered X env base (some empty_filter) ≡ []
  empty-filtered = filter_none (keeps E (some empty_filter)) base (λ r. false_literal E r)

  module _ (ask : Ask) (m : Meets X env base ask) where
    -- a pair of the base rows and of rows that a filter keeps
    record Pair (p : Option ExpressionNode) (pair : EquivalentRelation × EquivalentRelation)
        : Type 0 where
      left :
          Holds X env base none none (rows_of_relation X base pair.0) (signature_of_relation pair.0)
      right :
          Holds X env base p none (rows_of_relation X base pair.1) (signature_of_relation pair.1)

    both-Pair :
        (p : Option ExpressionNode) (left right : Option EquivalentRelation)
        → IfSome
            (λ r. Holds X env base none none (rows_of_relation X base r) (signature_of_relation r))
            left
        → IfSome
            (λ r. Holds X env base p none (rows_of_relation X base r) (signature_of_relation r))
            right
        → Yields (Pair p) (both left right)
    both-Pair p (some a) (some b) ha hb = Yields-pure (a, b) (record { left = ha; right = hb })
    both-Pair p (some a) none ha hb = Yields-decline
    both-Pair p none (some b) ha hb = Yields-decline
    both-Pair p none none ha hb = Yields-decline

    relation-Holds :
        (cs : ConstraintSet) (p : Option ExpressionNode)
        → Plain cs
        → current_filter cs ≡ p
        → projection cs ≡ none
        → Yields
            (λ r. Holds X env base p none (rows_of_relation X base r) (signature_of_relation r))
            (ask.relation cs)
    relation-Holds cs p u f e = rw (← f, ← e) (m.relation cs u)

    ask_two-Pair :
        (ds : ConstraintSet) (p : Option ExpressionNode)
        → Plain ds
        → current_filter ds ≡ p
        → projection ds ≡ none
        → Yields (Pair p) (ask_two ask [] ds)
    unfolding ask_two current_filter projection get_optional_constraint type_of same_type
    ask_two-Pair ds p u f e =
        Yields-bind (optional (ask.relation [])) _
          (Yields-optional (ask.relation [])
            (m.relation [] (record { untagged = refl; unkeyed = refl })))
          (λ left hl.
            Yields-bind (optional (ask.relation ds)) _
              (Yields-optional (ask.relation ds) (relation-Holds ds p u f e))
              (λ right hr. both-Pair p left right hl hr))

    ask_empty : Yields (Pair (some empty_filter)) (ask_two ask [] (row_filter empty_filter ∷ []))
    unfolding current_filter projection get_optional_constraint type_of same_type
    ask_empty =
        ask_two-Pair (row_filter empty_filter ∷ []) (some empty_filter)
          (record { untagged = refl; unkeyed = refl }) refl refl

    no_rows :
        (pair : EquivalentRelation × EquivalentRelation)
        → Pair (some empty_filter) pair
        → rows_of_relation X base pair.1 ≡ []
    no_rows pair h = Perm.eq-nil (
        subst (Perm (rows_of_relation X base pair.1)) empty-filtered
          (Holds-filtered X env base h.right))

    -- From a factory that meets the contract for each request (`Meets`): a relation united with one
    -- that `1 = 0` filters, if it is built, holds the base rows, each once.
    pub build_union_empty-Holds : Yields (HoldsQuery X env base []) (build_union_empty ask)
    unfolding build_union_empty rows_of_query rows_of_branches signature_of_query
        signature_of_branches current_filter projection get_optional_constraint
    build_union_empty-Holds =
        Yields-bind (ask_two ask [] (row_filter empty_filter ∷ [])) _ ask_empty (λ pair h.
          Yields-pure _ (
            base-Holds X env base
              (Perm.trans (X.union_all_rows _ _) (
                rw (no_rows pair h, append-nil (rows_of_relation X base pair.0))
                  (Holds-rows X env base h.left)))
              h.left.named))

    -- From a factory that meets the contract for each request (`Meets`): a relation less one that
    -- `1 = 0` filters, if it is built, holds the base rows.
    pub build_except_empty-Holds : Yields (HoldsQuery X env base []) (build_except_empty ask)
    unfolding build_except_empty rows_of_query signature_of_query current_filter projection
        get_optional_constraint
    build_except_empty-Holds =
        Yields-bind (ask_two ask [] (row_filter empty_filter ∷ [])) _ ask_empty (λ pair h.
          Yields-pure _ (
            base-Holds X env base
              (rw (no_rows pair h) (Perm.trans (X.except_all_nil _) (Holds-rows X env base h.left)))
              h.left.named))

    -- Of two bags that are the same, nothing is left over beside what they have in common.
    same_bags-intersect : (a b : List (Row E)) → Perm a b → Perm (X.intersect_all a b) a
    same_bags-intersect a b h =
        let (a', b', pa, pb, apart) = X.intersect_all_rows a b in
        let rest =
          (perm-append_left_iff (X.intersect_all a b)).0
            (Perm.trans (Perm.symm pa) (Perm.trans h pb)) in
        let none_left = eq-nil_iff_forall_not-mem.1 (λ r m. apart r m ((Perm.mem_iff rest).0 m)) in
        Perm.symm (
          subst (Perm a) (append-nil (X.intersect_all a b))
            (subst (λ t. Perm a (X.intersect_all a b ++ t)) none_left pa))

    -- From a factory that meets the contract for each request (`Meets`): two independent builds of
    -- the base rows, intersected, hold the base rows, if both are built. Of `INTERSECT ALL` it is
    -- known that it gives each row as often as both sides have it: beside it, no row is left over
    -- on the two sides at once.
    pub build_intersect_self-Holds : Yields (HoldsQuery X env base []) (build_intersect_self ask)
    unfolding build_intersect_self rows_of_query signature_of_query current_filter projection
        get_optional_constraint
    build_intersect_self-Holds =
        Yields-bind (ask_two ask [] []) _
          (ask_two-Pair [] none (record { untagged = refl; unkeyed = refl }) refl refl)
          (λ pair h. Yields-pure _ (
            base-Holds X env base
              (Perm.trans
                (same_bags-intersect _ _ (
                  Perm.trans (Holds-rows X env base h.left)
                    (Perm.symm (Holds-rows X env base h.right))))
                (Holds-rows X env base h.left))
              h.left.named))

    -- From a factory that meets the contract for each request (`Meets`): the left join with a
    -- relation that `1 = 0` filters, if it is built, holds the base rows, each once.
    pub build_left_join_empty-Holds :
        BaseTable X env base → Yields (HoldsQuery X env base []) (build_left_join_empty env ask)
    unfolding build_left_join_empty rows_of_query signature_of_query current_filter projection
        get_optional_constraint
    build_left_join_empty-Holds b =
        Yields-then (non_empty (passthrough_items env.base_table)) _ (λ items.
          Yields-bind (ask_two ask [] (row_filter empty_filter ∷ [])) _ ask_empty (λ pair h.
            Yields-pure _ (
              base-Holds X env base
                (rw (no_rows pair h) (
                  Perm.trans (X.join_left_empty _ _ _ _ _) (
                    Perm.trans (Perm.map _ (Holds-rows X env base h.left))
                      (perm_of_eq (restricted-rows X env base b)))))
                (qualified_names (codes "l") (signature env.base_table)))))
