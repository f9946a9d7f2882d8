-- ===== src/Equivalence/Builders/Base.antt =====
-- eqgen/equivalence/builders/base.py: what the builders share. `Ask` is `builder_factory`: a request
-- for a source, a relation or a query under a set of constraints.
use coa.Base.{
  ℕ, ◌-◌, ◌%◌, ◌^◌, ◌==◌, ltb, Bool, true, ◌&&◌, if◌then◌else◌, Option, none, some, List, [], ◌∷◌,
  ◌++◌, map, length, filter,
}
use coa.Base.Text.{Text, codes}
use coa.Core.Types.{is_numeric, get_scale}
use coa.Core.Catalog.{Column, Table}
use coa.Ir.Expr.{ExpressionNode, generated_predicate, col}
use coa.Equivalence.Ast.{ProjectionItem, Source, EquivalentRelation, QueryNode}
use coa.Equivalence.Constraints.{
  Constraint, ConstraintSet, constraint_set, get_optional_constraint, single,
}
use coa.Equivalence.Context.{
  Environment, Gen, pure, decline, or_raise, ◌>>=◌, ◌>>◌, draw_number, note_origin, merge_refused,
}

pub record Ask : Type 0 where
  pub source : ConstraintSet → Gen Source
  pub relation : ConstraintSet → Gen EquivalentRelation
  pub query : ConstraintSet → Gen QueryNode

-- `ConstraintSet([...])`, which raises when two entries refuse to merge
unfoldable pub make_set : List (Option Constraint) → Gen ConstraintSet
make_set entries = or_raise (constraint_set entries []) merge_refused

-- `_dispatch_source`: only the single-source constraint is passed down
unfoldable pub dispatch_source : Ask → ConstraintSet → Gen Source
unfolding ◌>>=◌ make_set
dispatch_source ask cs = do
  forwarded ← make_set (get_optional_constraint single cs ∷ [])
  ask.source forwarded

abbrev pub column_item : Column → ProjectionItem
column_item c = record {
  alias = c.name;
  expression = col c.name c.data_type;
  item_type = c.data_type;
}

-- `_passthrough_items`
unfoldable pub passthrough_items : Table → List ProjectionItem
passthrough_items t = map column_item t.columns

abbrev pub nth : {A : Type 0} → A → List A → ℕ → A
nth x [] i = x
nth x (y ∷ ys) i = if i == 0 then x else nth y ys (i - 1)

-- `_select_key` on a list that is not empty: the first candidate, or one drawn at random
unfoldable pub select_key : {A : Type 0} → Environment → A → List A → Gen A
unfolding ◌>>=◌ draw_number
select_key env x xs = do
  strategy ← draw_number env
  if env.is_random_key strategy && ltb 1 (length (x ∷ xs))
      then (do i ← draw_number env; pure (nth x xs (i % length (x ∷ xs))))
      else pure x

abbrev pub select_key_of : {A : Type 0} → Environment → List A → Gen A
select_key_of env [] = decline
select_key_of env (x ∷ xs) = select_key env x xs

abbrev is_whole : Option ℕ → Bool
is_whole none = true
is_whole (some s) = s == 0

-- `_pick_integer_key`: a column whose values are whole numbers
unfoldable pub pick_integer_key : Environment → Gen Column
pick_integer_key env = select_key_of env (
    filter (λ c. is_numeric c.data_type && is_whole (get_scale c.data_type)) env.base_table.columns)

abbrev pub accept_predicate : Text → Option Text → Gen ExpressionNode
accept_predicate source none = do note_origin (source ++ codes "-declined"); decline
accept_predicate source (some []) = do note_origin (source ++ codes "-declined"); decline
accept_predicate source (some (c ∷ text)) = do
  note_origin source
  pure (generated_predicate (c ∷ text))

abbrev pub ask_plugin : Environment → Option (Text × (ℕ → Option Text)) → Gen ExpressionNode
ask_plugin env none = do note_origin (codes "none-configured"); decline
ask_plugin env (some (name, boolean_predicate)) = do
  seed ← draw_number env
  accept_predicate name (boolean_predicate (seed % 2 ^ 31))

-- `_generated_predicate`
unfoldable pub generated : Environment → Gen ExpressionNode
unfolding ◌>>=◌ draw_number note_origin
generated env = ask_plugin env env.predicate_source
