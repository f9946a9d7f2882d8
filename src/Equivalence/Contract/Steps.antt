-- ===== src/Equivalence/Contract/Steps.antt =====
-- The steps that the builders share: each comes back at the depth at which it began.
use coa.Base.{ℕ, Option, none, some, List, [], ◌∷◌}
use coa.Base.Text.{Text}
use coa.Core.Catalog.{Column, Named}
use coa.Ir.Expr.{ExpressionNode, ValueCodec}
use coa.Equivalence.Ast.{
  QueryNode, CreateKind, view, temporary_view, materialized_view, table, temporary_table,
  unlogged_table,
}
use coa.Equivalence.Constraints.{ConstraintSet}
use coa.Equivalence.Context.{Environment, Gen}
use coa.Equivalence.Builders.Base.{
  select_key, select_key_of, pick_integer_key, accept_predicate, ask_plugin, generated,
}
use coa.Equivalence.Builders.Creates.{
  named_or_minted, create_as_select, wrap, odd_key, mutation_predicate, build_noop_update_of,
}
use coa.Equivalence.Builders.Selects.{non_empty, both}
use coa.Equivalence.Builders.Rewrites.{
  rewrite_columns, fallback_predicate, or_fallback, free_predicate, eet_case, uniform_codec,
  drawn_codec_for,
}
use coa.Equivalence.Contract.Steady.{Steady, steady, Steady-bind, Steady-pure}

module _ (d : ℕ) (env : Environment) where
  pub select_key-Steady : {A : Type 0} (x : A) (xs : List A) → Steady d (select_key env x xs)
  unfolding select_key
  select_key-Steady x xs = search steady

  pub select_key_of-Steady : {A : Type 0} (xs : List A) → Steady d (select_key_of env xs)
  select_key_of-Steady [] = search steady
  select_key_of-Steady (x ∷ xs) = select_key-Steady x xs

  pub pick_integer_key-Steady : Steady d (pick_integer_key env)
  unfolding pick_integer_key
  pick_integer_key-Steady = select_key_of-Steady _

  pub accept_predicate-Steady :
      (source : Text) (o : Option Text) → Steady d (accept_predicate source o)
  accept_predicate-Steady source none = search steady
  accept_predicate-Steady source (some []) = search steady
  accept_predicate-Steady source (some (c ∷ t)) = search steady

  pub ask_plugin-Steady :
      (plugin : Option (Text × (ℕ → Option Text))) → Steady d (ask_plugin env plugin)
  ask_plugin-Steady none = search steady
  ask_plugin-Steady (some (name, f)) = search (steady, accept_predicate-Steady)

  pub generated-Steady : Steady d (generated env)
  unfolding generated
  generated-Steady = ask_plugin-Steady env.predicate_source

  pub named_or_minted-Steady :
      (label : Text) (o : Option Text) → Steady d (named_or_minted env label o)
  named_or_minted-Steady label none = search steady
  named_or_minted-Steady label (some []) = search steady
  named_or_minted-Steady label (some (c ∷ name)) = search steady

  pub create_as_select-Steady :
      (kind : CreateKind) (q : QueryNode) (name : Option Text)
      → Steady d (create_as_select env kind q name)
  unfolding create_as_select
  create_as_select-Steady kind q name = search (steady, named_or_minted-Steady)

  pub wrap-Steady :
      (kind : CreateKind) (q : QueryNode) (name : Option Text) → Steady d (wrap env kind q name)
  unfolding wrap
  wrap-Steady materialized_view q name = search (steady, create_as_select-Steady)
  wrap-Steady view q name = create_as_select-Steady view q name
  wrap-Steady temporary_view q name = create_as_select-Steady temporary_view q name
  wrap-Steady table q name = create_as_select-Steady table q name
  wrap-Steady temporary_table q name = create_as_select-Steady temporary_table q name
  wrap-Steady unlogged_table q name = create_as_select-Steady unlogged_table q name

  pub odd_key-Steady : (o : Option ExpressionNode) → Steady d (odd_key env o)
  odd_key-Steady none = search (steady, pick_integer_key-Steady)
  odd_key-Steady (some p) = search steady

  pub mutation_predicate-Steady : Steady d (mutation_predicate env)
  unfolding mutation_predicate
  mutation_predicate-Steady = search (steady, generated-Steady, odd_key-Steady)

  pub build_noop_update_of-Steady :
      (cs : ConstraintSet) (q : QueryNode) (ns : List Named)
      → Steady d (build_noop_update_of env cs q ns)
  build_noop_update_of-Steady cs q [] = search steady
  build_noop_update_of-Steady cs q (n ∷ ns) =
      search (steady, mutation_predicate-Steady, named_or_minted-Steady)

  pub non_empty-Steady : {A : Type 0} (xs : List A) → Steady d (non_empty xs)
  non_empty-Steady [] = search steady
  non_empty-Steady (x ∷ xs) = search steady

  pub both-Steady : {A : Type 0} (a b : Option A) → Steady d (both a b)
  both-Steady (some a) (some b) = search steady
  both-Steady (some a) none = search steady
  both-Steady none (some b) = search steady
  both-Steady none none = search steady

  pub fallback_predicate-Steady : (cs : List Column) → Steady d (fallback_predicate env cs)
  fallback_predicate-Steady [] = search steady
  fallback_predicate-Steady (c ∷ cs) = search (steady, select_key-Steady)

  pub or_fallback-Steady : (o : Option ExpressionNode) → Steady d (or_fallback env o)
  or_fallback-Steady none = fallback_predicate-Steady env.base_table.columns
  or_fallback-Steady (some p) = search steady

  pub free_predicate-Steady : Steady d (free_predicate env)
  unfolding free_predicate
  free_predicate-Steady = search (steady, generated-Steady, or_fallback-Steady)

  pub rewrite_columns-Steady :
      (rewrite : Column → Gen (Option ExpressionNode)) (cs : List Column)
      → ((c : Column) → Steady d (rewrite c))
      → Steady d (rewrite_columns rewrite cs)
  unfolding rewrite_columns
  rewrite_columns-Steady rewrite [] h = search steady
  rewrite_columns-Steady rewrite (c ∷ cs) h = Steady-bind (rewrite c) _ (h c) (λ e.
      Steady-bind (rewrite_columns rewrite cs) _ (rewrite_columns-Steady rewrite cs h)
        (λ rest. Steady-pure _))

  pub eet_case-Steady : (c : Column) → Steady d (eet_case env c)
  unfolding eet_case
  eet_case-Steady c = search (steady, free_predicate-Steady)

  pub uniform_codec-Steady : (codec : ValueCodec) (c : Column) → Steady d (uniform_codec codec c)
  unfolding uniform_codec
  uniform_codec-Steady codec c = search steady

  pub drawn_codec_for-Steady : (c : Column) → Steady d (drawn_codec_for env c)
  unfolding drawn_codec_for
  drawn_codec_for-Steady c = search steady
