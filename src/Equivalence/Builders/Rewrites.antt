-- ===== src/Equivalence/Builders/Rewrites.antt =====
-- `ColumnRewriteQueryBuilder` of base.py and the builders over it, eet.py and roundtrips.py: each
-- column replaced by an expression of the same value.
use coa.Base.{ℕ, ◌%◌, ◌==◌, Bool, true, false, if◌then◌else◌, Option, none, some, List, [], ◌∷◌}
use coa.Base.Text.{codes}
use coa.Core.Types.{get_properties, is_varchar}
use coa.Core.Catalog.{Column}
use coa.Ir.Expr.{
  ExpressionNode, ValueCodec, hex, json_pack, col, ge, is_null, typed_null, case_when, conjoin,
  determined_true, value_codec_round_trip,
}
use coa.Equivalence.Ast.{ProjectionItem, QueryNode, select_query, no_clauses}
use coa.Equivalence.Constraints.{ConstraintSet, current_filter}
use coa.Equivalence.Context.{
  Environment, Gen, pure, decline, ◌>>=◌, ◌>>◌, optional, draw_number, note_origin,
}
use coa.Equivalence.Builders.Base.{Ask, dispatch_source, generated, select_key_of}

abbrev pub rewritten_item : Column → Option ExpressionNode → ProjectionItem
rewritten_item c none = record {
  alias = c.name;
  expression = col c.name c.data_type;
  item_type = c.data_type;
}
rewritten_item c (some e) = record { alias = c.name; expression = e; item_type = c.data_type }

abbrev pub was_rewritten : Option ExpressionNode → Bool → Bool
was_rewritten none any_rewritten = any_rewritten
was_rewritten (some e) any_rewritten = true

-- the loop over the columns: the items, and whether any column was rewritten
unfoldable pub rewrite_columns :
    (Column → Gen (Option ExpressionNode)) → List Column → Gen (List ProjectionItem × Bool)
unfolding ◌>>=◌
rewrite_columns rewrite [] = pure ([], false)
rewrite_columns rewrite (c ∷ columns) = do
  rewritten ← rewrite c
  rest ← rewrite_columns rewrite columns
  pure (rewritten_item c rewritten ∷ rest.0, was_rewritten rewritten rest.1)

abbrev pub finish_rewrite : Ask → List ProjectionItem × Bool → Gen QueryNode
finish_rewrite ask (items, false) = decline
finish_rewrite ask (items, true) = do
  source ← dispatch_source ask []
  pure (select_query source (some items) none no_clauses)

-- `ColumnRewriteQueryBuilder._build`
unfoldable pub build_column_rewrite :
    Environment → (Column → Gen (Option ExpressionNode)) → Ask → Gen QueryNode
unfolding ◌>>=◌
build_column_rewrite env rewrite ask = do
  items ← rewrite_columns rewrite env.base_table.columns
  finish_rewrite ask items

-- the predicate that `_free_predicate` writes itself
abbrev fallback_for : Column → ExpressionNode
fallback_for c =
    if (get_properties c.data_type).orderable
    then ge (col c.name c.data_type) (col c.name c.data_type)
    else is_null (col c.name c.data_type)

abbrev pub fallback_predicate : Environment → List Column → Gen ExpressionNode
fallback_predicate env [] = decline
fallback_predicate env (c ∷ cs) = do
  note_origin (codes "builtin-fallback")
  column ← select_key_of env (c ∷ cs)
  pure (fallback_for column)

abbrev pub or_fallback : Environment → Option ExpressionNode → Gen ExpressionNode
or_fallback env (some p) = pure p
or_fallback env none = fallback_predicate env env.base_table.columns

-- `_free_predicate`
unfoldable pub free_predicate : Environment → Gen ExpressionNode
unfolding ◌>>=◌ optional note_origin
free_predicate env = do predicate ← optional (generated env); or_fallback env predicate

abbrev pub eet_case_of : Column → Option ExpressionNode → Option ExpressionNode
eet_case_of c none = none
eet_case_of c (some p) =
    some
      (case_when (determined_true p) (col c.name c.data_type) (typed_null c.data_type) c.data_type)

-- the `rewrite` of `EetCaseColumnQueryBuilder`: a fresh predicate for each column
unfoldable pub eet_case : Environment → Column → Gen (Option ExpressionNode)
unfolding ◌>>=◌ optional
eet_case env c = do predicate ← optional (free_predicate env); pure (eet_case_of c predicate)

-- `EetCaseColumnQueryBuilder._build`, which asks for one predicate more to see whether there is any
unfoldable pub build_eet_case : Environment → Ask → Gen QueryNode
unfolding ◌>>=◌ build_column_rewrite
build_eet_case env ask = do free_predicate env; build_column_rewrite env (eet_case env) ask

-- `EetDeterminedFilterQueryBuilder._build`
unfoldable pub build_eet_filter : Environment → Ask → ConstraintSet → Gen QueryNode
unfolding ◌>>=◌
build_eet_filter env ask cs = do
  predicate ← free_predicate env
  source ← dispatch_source ask cs
  pure (
      select_query source none (some (conjoin (current_filter cs) (determined_true predicate)))
        no_clauses)

-- `ValueCodecSpec.roundtrip`, guarded against NULL
unfoldable pub roundtrip : ValueCodec → Column → ExpressionNode
roundtrip codec c =
    case_when (is_null (col c.name c.data_type)) (typed_null c.data_type)
      (value_codec_round_trip codec (col c.name c.data_type) c.data_type) c.data_type

-- `UniformAssignment`: one codec for every text column
unfoldable pub uniform_codec : ValueCodec → Column → Gen (Option ExpressionNode)
uniform_codec codec c = pure (if is_varchar c.data_type then some (roundtrip codec c) else none)

-- `_build` of the hex, base64 and JSON codecs
unfoldable pub build_uniform_codec : Environment → ValueCodec → Ask → Gen QueryNode
unfolding build_column_rewrite uniform_codec
build_uniform_codec env codec ask = build_column_rewrite env (uniform_codec codec) ask

-- `random.choice` of the two codecs that every engine has
abbrev pub drawn_codec : ℕ → ValueCodec
drawn_codec i = if i % 2 == 0 then hex else json_pack

-- `PerColumnAssignment`: a codec drawn for each text column
unfoldable pub drawn_codec_for : Environment → Column → Gen (Option ExpressionNode)
unfolding ◌>>=◌ draw_number
drawn_codec_for env c =
    if is_varchar c.data_type
    then (do i ← draw_number env; pure (some (roundtrip (drawn_codec i) c)))
    else pure none

-- `MixedCodecRoundTripBuilder._build`
unfoldable pub build_mixed_codec : Environment → Ask → Gen QueryNode
unfolding build_column_rewrite drawn_codec_for
build_mixed_codec env ask = build_column_rewrite env (drawn_codec_for env) ask
