-- ===== src/Equivalence/Contract/Rewrites.antt =====
-- The builders that write each column as an expression of the column's value, and the filter that
-- is true at every row.
use mathlib.Core.List.Perm
use coa.Base.{
  ℕ, ◌%◌, ◌==◌, Bool, true, false, if◌then◌else◌, ◌&&◌, Option, none, some, List, [], ◌∷◌, ◌≡◌, ◌≢◌,
  refl, sym, ap, ◌∙◌, map, filter_congr, perm_of_eq,
}
use coa.Core.Catalog.{Column, signature, column_named}
use coa.Core.Types.{is_varchar}
use coa.Ir.Expr.{
  ExpressionNode, ValueCodec, hex, json_pack, col, conjoin, determined_true, is_null_node,
  case_node, typed_null, value_codec_round_trip,
}
use coa.Equivalence.Ast.{ProjectionItem, signature_of_query}
use coa.Equivalence.Constraints.{ConstraintSet, current_filter, get_optional_constraint}
use coa.Equivalence.Context.{Environment, Gen, pure, ◌>>=◌, optional, draw_number}
use coa.Equivalence.Builders.Base.{Ask, dispatch_source}
use coa.Equivalence.Builders.Rewrites.{
  rewritten_item, was_rewritten, rewrite_columns, finish_rewrite, build_column_rewrite,
  free_predicate, eet_case_of, eet_case, build_eet_case, build_eet_filter, roundtrip, uniform_codec,
  build_uniform_codec, drawn_codec, drawn_codec_for, build_mixed_codec,
}
use coa.Equivalence.Contract.Yields.{
  Yields, IfSome, Yields-bind, Yields-then, Yields-pure, Yields-decline,
}
use coa.Equivalence.Contract.Promise.{
  HoldsQuery, Meets, BaseTable, projection, Holds-rows, select-rows, dispatch-Holds, filtered-Holds,
  Holds-filtered,
}
use coa.Equivalence.Contract.Columns.{select-RewritesOf}
use coa.Sql.Truth.{yes_true, yes_false, holds, of_bool}
use coa.Sql.Engine.{Engine}
use coa.Sql.Logic.{keeps, keeps-conjoin, determined_true_is_true}
use coa.Sql.Executor.{Executor, Row}
use coa.Sql.Denotation.{rows_of_query}
use coa.Sql.Rows.{SameValue, SameValue-col, RewritesOf}

-- The codec's functions give back every text that is not NULL, as their documentation says.
pub record Lossless (E : Engine) (codec : ValueCodec) : Type 0 where
  pub gives_back :
      (r : Row E) (c : Column)
      → is_varchar c.data_type ≡ true
      → E.is_null_value (E.value_of r (col c.name c.data_type)) ≡ false
      → E.value_of r (value_codec_round_trip codec (col c.name c.data_type) c.data_type)
        ≡ E.value_of r (col c.name c.data_type)

and_true : (b : Bool) → (b && true) ≡ b
and_true true = refl
and_true false = refl

false_is_not_true : yes_false ≢ yes_true
false_is_not_true h = cc

module _ (E : Engine) where
  -- Under a condition that is true at every row a case is its first branch.
  eet_case_of-SameValue :
      (c : Column) (p : Option ExpressionNode) → IfSome (SameValue E c.name) (eet_case_of c p)
  eet_case_of-SameValue c none = tt
  eet_case_of-SameValue c (some p) = λ r v h.
      E.value_case r (determined_true p) (col c.name c.data_type) (typed_null c.data_type)
        c.data_type (determined_true_is_true E r p)
      ∙ SameValue-col E c r v h

  pub roundtrip-SameValue :
      (codec : ValueCodec) (c : Column)
      → Lossless E codec
      → is_varchar c.data_type ≡ true
      → SameValue E c.name (roundtrip codec c)
  unfolding roundtrip
  roundtrip-SameValue codec c l t r v h =
      by_cases (E.is_null_value (E.value_of r (col c.name c.data_type))) refl
    where
      truth_null :
          E.truth_of r (is_null_node (col c.name c.data_type) false)
          ≡ of_bool (E.is_null_value (E.value_of r (col c.name c.data_type)))
      truth_null = E.truth_is_null r (col c.name c.data_type) false

      by_cases :
          (b : Bool)
          → E.is_null_value (E.value_of r (col c.name c.data_type)) ≡ b
          → E.value_of r (
              case_node
                (is_null_node (col c.name c.data_type) false)
                (typed_null c.data_type)
                (value_codec_round_trip codec (col c.name c.data_type) c.data_type)
                c.data_type)
            ≡ v
      by_cases true e =
          E.value_case r _ _ _ _ (truth_null ∙ ap of_bool e)
          ∙ E.value_typed_null r c.data_type
          ∙ sym (E.is_null_null _ e)
          ∙ SameValue-col E c r v h
      by_cases false e =
          E.value_case_else r _ _ _ _ (λ g. false_is_not_true (sym (truth_null ∙ ap of_bool e) ∙ g))
          ∙ l.gives_back r c t e
          ∙ SameValue-col E c r v h

module _ {E : Engine} (X : Executor E) (env : Environment) (base : List (Row E)) where
  rewritten :
      (c : Column) (e : Option ExpressionNode)
      → IfSome (SameValue E c.name) e
      → ((rewritten_item c e).alias ≡ c.name) × SameValue E c.name (rewritten_item c e).expression
  rewritten c none h = (refl, SameValue-col E c)
  rewritten c (some e) h = (refl, h)

  -- A loop whose rewrites keep each column's value gives a list of items that does.
  rewrite_columns-RewritesOf :
      (rewrite : Column → Gen (Option ExpressionNode)) (cs : List Column)
      → ((c : Column) → Yields (IfSome (SameValue E c.name)) (rewrite c))
      → Yields (λ x. RewritesOf E (map column_named cs) x.0) (rewrite_columns rewrite cs)
  unfolding rewrite_columns
  rewrite_columns-RewritesOf rewrite [] h = Yields-pure ([], false) tt
  rewrite_columns-RewritesOf rewrite (c ∷ cs) h = Yields-bind (rewrite c) _ (h c) (λ e he.
      Yields-bind (rewrite_columns rewrite cs) _ (rewrite_columns-RewritesOf rewrite cs h)
        (λ rest hr.
          Yields-pure (rewritten_item c e ∷ rest.0, was_rewritten e rest.1)
            ((rewritten c e he).0, (rewritten c e he).1, hr)))

  module _ (ask : Ask) (b : BaseTable X env base) (m : Meets X env base ask) where
    finish_rewrite-Holds :
        (x : List ProjectionItem × Bool)
        → RewritesOf E (signature env.base_table) x.0
        → Yields (HoldsQuery X env base []) (finish_rewrite ask x)
    unfolding rows_of_query signature_of_query current_filter projection get_optional_constraint
    finish_rewrite-Holds (items, false) h = Yields-decline
    finish_rewrite-Holds (items, true) h =
        Yields-bind (dispatch_source ask []) _ (dispatch-Holds X env base ask [] m) (λ s hs.
          Yields-pure _ (select-RewritesOf X env base items none _ b h (Holds-rows X env base hs)))

    -- A column rewrite that keeps the value of each column keeps the rows.
    pub build_column_rewrite-Holds :
        (rewrite : Column → Gen (Option ExpressionNode))
        → ((c : Column) → Yields (IfSome (SameValue E c.name)) (rewrite c))
        → Yields (HoldsQuery X env base []) (build_column_rewrite env rewrite ask)
    unfolding build_column_rewrite signature
    build_column_rewrite-Holds rewrite h =
        Yields-bind (rewrite_columns rewrite env.base_table.columns) _
          (rewrite_columns-RewritesOf rewrite env.base_table.columns h)
          (λ x hx. finish_rewrite-Holds x hx)

    eet_case-SameValue : (c : Column) → Yields (IfSome (SameValue E c.name)) (eet_case env c)
    unfolding eet_case
    eet_case-SameValue c =
        Yields-then (optional (free_predicate env)) _
          (λ p. Yields-pure (eet_case_of c p) (eet_case_of-SameValue E c p))

    -- From a factory that meets the contract for each request (`Meets`): the query that writes
    -- columns as `CASE WHEN p OR NOT p OR p IS NULL THEN column ELSE NULL END`, if it is built,
    -- holds the base rows, whatever condition is drawn for each column.
    pub build_eet_case-Holds : Yields (HoldsQuery X env base []) (build_eet_case env ask)
    unfolding build_eet_case
    build_eet_case-Holds =
        Yields-then (free_predicate env) _
          (λ p. build_column_rewrite-Holds (eet_case env) eet_case-SameValue)

    -- From a factory that meets the contract for each request (`Meets`), for a set with no rewrite:
    -- with the filter `p OR NOT p OR p IS NULL` beside the set's own, a query that is built holds
    -- the rows of the set's filter, whatever the condition p is.
    pub build_eet_filter-Holds :
        (cs : ConstraintSet)
        → projection cs ≡ none
        → Yields (HoldsQuery X env base cs) (build_eet_filter env ask cs)
    unfolding build_eet_filter rows_of_query signature_of_query
    build_eet_filter-Holds cs e = Yields-then (free_predicate env) _ (λ p.
        Yields-bind (dispatch_source ask cs) _ (dispatch-Holds X env base ask cs m) (λ s h.
          Yields-pure _ (
            rw e (
              filtered-Holds X env base
                (Perm.trans
                  (Holds-filtered X env base
                    {p = some (conjoin (current_filter cs) (determined_true p))}
                    (record {
                      rows =
                          select-rows X env base none
                            (some (conjoin (current_filter cs) (determined_true p))) _
                            (Holds-rows X env base h);
                      named = h.named;
                    }))
                  (perm_of_eq (
                    filter_congr (keeps E (some (conjoin (current_filter cs) (determined_true p))))
                      (keeps E (current_filter cs)) base
                      (λ r.
                        keeps-conjoin E r (current_filter cs) (determined_true p)
                        ∙ ap (λ t. keeps E (current_filter cs) r && holds t)
                            (determined_true_is_true E r p)
                        ∙ and_true (keeps E (current_filter cs) r)))))
                h.named))))

    uniform_codec-SameValue :
        (codec : ValueCodec)
        → Lossless E codec
        → (c : Column) → Yields (IfSome (SameValue E c.name)) (uniform_codec codec c)
    unfolding uniform_codec
    uniform_codec-SameValue codec l c = by_cases (is_varchar c.data_type) refl
      where
        by_cases :
            (t : Bool)
            → is_varchar c.data_type ≡ t
            → Yields
                (IfSome (SameValue E c.name))
                (pure (if t then some (roundtrip codec c) else none))
        by_cases true e = Yields-pure (some (roundtrip codec c)) (roundtrip-SameValue E codec c l e)
        by_cases false e = Yields-pure none tt

    -- From a factory that meets the contract for each request (`Meets`), for a codec that gives
    -- back each text that is not NULL: the query that sends each text column through it and leaves
    -- NULL alone, if it is built, holds the base rows.
    pub build_uniform_codec-Holds :
        (codec : ValueCodec)
        → Lossless E codec
        → Yields (HoldsQuery X env base []) (build_uniform_codec env codec ask)
    unfolding build_uniform_codec
    build_uniform_codec-Holds codec l =
        build_column_rewrite-Holds (uniform_codec codec) (uniform_codec-SameValue codec l)

    drawn_codec-Lossless :
        (i : ℕ) → Lossless E hex → Lossless E json_pack → Lossless E (drawn_codec i)
    drawn_codec-Lossless i lh lj = by_cases (i % 2 == 0)
      where
        by_cases : (t : Bool) → Lossless E (if t then hex else json_pack)
        by_cases true = lh
        by_cases false = lj

    drawn_codec_for-SameValue :
        Lossless E hex
        → Lossless E json_pack
        → (c : Column) → Yields (IfSome (SameValue E c.name)) (drawn_codec_for env c)
    unfolding drawn_codec_for
    drawn_codec_for-SameValue lh lj c = by_cases (is_varchar c.data_type) refl
      where
        by_cases :
            (t : Bool)
            → is_varchar c.data_type ≡ t
            → Yields (IfSome (SameValue E c.name)) (
                if t
                then (draw_number env >>= (λ i. pure (some (roundtrip (drawn_codec i) c))))
                else pure none)
        by_cases true e = Yields-then (draw_number env) _ (λ i.
            Yields-pure (some (roundtrip (drawn_codec i) c))
              (roundtrip-SameValue E (drawn_codec i) c (drawn_codec-Lossless i lh lj) e))
        by_cases false e = Yields-pure none tt

    -- From a factory that meets the contract for each request (`Meets`), if the hex codec and the
    -- JSON codec give back each text that is not NULL: the query that draws one of them for each
    -- text column, if it is built, holds the base rows.
    pub build_mixed_codec-Holds :
        Lossless E hex
        → Lossless E json_pack
        → Yields (HoldsQuery X env base []) (build_mixed_codec env ask)
    unfolding build_mixed_codec
    build_mixed_codec-Holds lh lj =
        build_column_rewrite-Holds (drawn_codec_for env) (drawn_codec_for-SameValue lh lj)
