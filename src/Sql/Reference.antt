-- ===== src/Sql/Reference.antt =====
-- A concrete engine, at which the laws are seen to hold together: values are numbers or NULL, the
-- text of a generated condition is a column's name, and codecs are the identity.
use coa.Base.{
  ℕ, zero, suc, ◌%◌, ◌==◌, leb, Bool, true, false, not, ◌||◌, if◌then◌else◌, Option, none, some,
  List, ◌≡◌, ◌≢◌, refl, sym, ap, ◌∙◌,
}
use coa.Base.Text.{Text}
use coa.Ir.Expr.{
  ExpressionNode, ComparisonOp, op_eq, op_ne, op_ge, BoolOperator, op_and, op_or, column_ref,
  int_literal, boolean_literal, raw_expr, typed_null, generated_predicate, comparison, bool_op,
  not_node, is_null_node, mod_node, case_node, aggregate_call, value_codec_round_trip, window_frame,
  window_call,
}
use coa.Sql.Truth.{Truth, yes_true, yes_false, unknown, and3, or3, not3, of_bool, holds, is_unknown}
use coa.Sql.Engine.{Engine, lookup}

abbrev pub Number : Type 0
Number = Option ℕ

abbrev pub to_truth : Number → Truth
to_truth none = unknown
to_truth (some zero) = yes_false
to_truth (some (suc n)) = yes_true

abbrev pub of_truth : Truth → Number
of_truth yes_true = some 1
of_truth yes_false = some 0
of_truth unknown = none

abbrev pub is_none : Number → Bool
is_none none = true
is_none (some v) = false

abbrev pub or_null : Option Number → Number
or_null none = none
or_null (some v) = v

abbrev pub holds_test : ComparisonOp → ℕ → ℕ → Bool
holds_test op_eq m n = m == n
holds_test op_ne m n = not (m == n)
holds_test op_ge m n = leb n m

abbrev pub compare_values : ComparisonOp → Number → Number → Truth
compare_values o (some m) (some n) = of_bool (holds_test o m n)
compare_values o (some m) none = unknown
compare_values o none b = unknown

abbrev pub modulus : Number → ℕ → Number
modulus none m = none
modulus (some v) zero = none
modulus (some v) (suc m) = some (v % suc m)

abbrev pub combine : BoolOperator → Truth → Truth → Truth
combine op_and = and3
combine op_or = or3

unfoldable pub value_at : List (Text × Number) → ExpressionNode → Number
unfolding lookup
value_at r (column_ref name t alias) = or_null (lookup name r)
value_at r (int_literal n) = some n
value_at r (boolean_literal b) = of_truth (of_bool b)
value_at r (raw_expr sql t) = none
value_at r (typed_null t) = none
value_at r (generated_predicate text) = or_null (lookup text r)
value_at r (comparison o a b) = of_truth (compare_values o (value_at r a) (value_at r b))
value_at r (bool_op o a b) =
    of_truth (combine o (to_truth (value_at r a)) (to_truth (value_at r b)))
value_at r (not_node a) = of_truth (not3 (to_truth (value_at r a)))
value_at r (is_null_node a negated) =
    of_truth (of_bool (if negated then not (is_none (value_at r a)) else is_none (value_at r a)))
value_at r (mod_node e m) = modulus (value_at r e) m
value_at r (case_node c a b t) =
    let x = value_at r a in let y = value_at r b in if holds (to_truth (value_at r c)) then x else y
value_at r (aggregate_call f a t) = none
value_at r (value_codec_round_trip c a t) = value_at r a
value_at r (window_frame k) = none
value_at r (window_call f a p o k t) = none

pub decoded : (t : Truth) → to_truth (of_truth t) ≡ t
decoded yes_true = refl
decoded yes_false = refl
decoded unknown = refl

pub unknown_none : (v : Number) → is_unknown (to_truth v) ≡ is_none v
unknown_none none = refl
unknown_none (some zero) = refl
unknown_none (some (suc n)) = refl

pub none_null : (v : Number) → is_none v ≡ true → v ≡ none
none_null none h = refl
none_null (some v) h = cc

known : (b : Bool) → is_unknown (of_bool b) ≡ false
known true = refl
known false = refl

pub compared :
    (o : ComparisonOp) (a b : Number) → is_unknown (compare_values o a b) ≡ (is_none a || is_none b)
compared o none b = refl
compared o (some m) none = refl
compared o (some m) (some n) = known (holds_test o m n)

negated : (b : Bool) → of_bool (not b) ≡ not3 (of_bool b)
negated true = refl
negated false = refl

pub unequal : (a b : Number) → compare_values op_ne a b ≡ not3 (compare_values op_eq a b)
unequal none b = refl
unequal (some m) none = refl
unequal (some m) (some n) = negated (m == n)

pub mod_none : (v : Number) (m : ℕ) → is_none (modulus v (suc m)) ≡ is_none v
mod_none none m = refl
mod_none (some v) m = refl

pub not_true : (t : Truth) → t ≢ yes_true → holds t ≡ false
not_true yes_true h = absurd (h refl)
not_true yes_false h = refl
not_true unknown h = refl

unfoldable pub reference : Engine
unfolding value_at
reference = record {
  Value = Number;
  null = none;
  is_null_value = is_none;
  value_of = value_at;
  truth_of = λ r e. to_truth (value_at r e);
  null_is_null = refl;
  is_null_null = none_null;
  truth_unknown = λ r e. unknown_none (value_at r e);
  truth_and = λ r a b. decoded _;
  truth_or = λ r a b. decoded _;
  truth_not = λ r a. decoded _;
  truth_is_null = λ r a n. decoded _;
  compare_unknown = λ r o a b. ap is_unknown (decoded _) ∙ compared o (value_at r a) (value_at r b);
  compare_ne =
      λ r a b. decoded _ ∙ unequal (value_at r a) (value_at r b) ∙ ap not3 (sym (decoded _));
  compare_literals = λ r m n. decoded _;
  literal_not_null = λ r n. refl;
  mod_null = λ r e m. mod_none (value_at r e) m;
  value_typed_null = λ r t. refl;
  value_case = λ r c a b t h. ap (λ k. if holds k then value_at r a else value_at r b) h;
  value_case_else =
      λ r c a b t h. ap (λ k. if k then value_at r a else value_at r b) (not_true _ h);
  value_col = λ r name t v h. ap or_null h;
}
