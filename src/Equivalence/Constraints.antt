-- ===== src/Equivalence/Constraints.antt =====
-- eqgen/equivalence/constraints.py and eqgen/builder/constraint_set.py: what may be asked of a child,
-- and a set of constraints with one of each type, in the order of the underlying dictionary.
use coa.Base.{
  ℕ, ◌==◌, Bool, true, false, ◌&&◌, if◌then◌else◌, Option, none, some, ◌>>=◌, List, [], ◌∷◌, ◌++◌,
  map, any, find,
}
use coa.Base.Text.{Text, text_eq}
use coa.Ir.Expr.{ExpressionNode, conjoin}
use coa.Equivalence.Ast.{
  ProjectionItem, EqNode, source_node, query_node, relation_source, signature_of_source,
  signature_of_query, materialized_name,
}

-- `KeyScope` and `KeySpec` of eqgen/equivalence/keys.py
pub data KeyScope : Type 0 where
  identity grouped : KeyScope

pub record KeySpec : Type 0 where
  pub column : Text
  pub scope : KeyScope
  pub physical : Bool

pub data Constraint : Type 0 where
  row_filter : ExpressionNode → Constraint
  accepts_dml : Constraint
  single_source : Constraint
  column_rewrite : List ProjectionItem → Constraint
  tag_channel : Text → ℕ → Constraint
  key_channel : KeySpec → Constraint
  exposed_name : Text → Constraint

-- the classes, by which a set is keyed
pub data ConstraintType : Type 0 where
  row_filters dml single rewrites tags keys exposed : ConstraintType

unfoldable pub type_of : Constraint → ConstraintType
type_of (row_filter p) = row_filters
type_of accepts_dml = dml
type_of single_source = single
type_of (column_rewrite items) = rewrites
type_of (tag_channel c k) = tags
type_of (key_channel k) = keys
type_of (exposed_name n) = exposed

abbrev pub type_index : ConstraintType → ℕ
type_index row_filters = 0
type_index dml = 1
type_index single = 2
type_index rewrites = 3
type_index tags = 4
type_index keys = 5
type_index exposed = 6

unfoldable pub same_type : ConstraintType → ConstraintType → Bool
same_type s t = type_index s == type_index t

overlaps : List ProjectionItem → List ProjectionItem → Bool
overlaps xs ys = any (λ x. any (λ y. text_eq x.alias y.alias) ys) xs

-- `merge_constraint`, called on two constraints of one class; `none` is the `ValueError` of two
-- column rewrites that name one column
unfoldable pub merge_constraint : Constraint → Constraint → Option Constraint
unfolding overlaps
merge_constraint (row_filter p) (row_filter q) = some (row_filter (conjoin (some p) q))
merge_constraint (column_rewrite xs) (column_rewrite ys) =
    if overlaps xs ys then none else some (column_rewrite (xs ++ ys))
merge_constraint c d = some c

abbrev pub ConstraintSet : Type 0
ConstraintSet = List Constraint

-- one round of `ConstraintSet.__init__`
unfoldable pub add : Constraint → ConstraintSet → Option ConstraintSet
unfolding merge_constraint type_of same_type
add c [] = some (c ∷ [])
add c (d ∷ ds) =
    if same_type (type_of d) (type_of c)
    then (do m ← merge_constraint d c; some (m ∷ ds))
    else (do ds' ← add c ds; some (d ∷ ds'))

-- `ConstraintSet.__init__`: absent entries are skipped, entries of one class merge
unfoldable pub constraint_set : List (Option Constraint) → ConstraintSet → Option ConstraintSet
unfolding add
constraint_set [] cs = some cs
constraint_set (none ∷ more) cs = constraint_set more cs
constraint_set (some c ∷ more) cs = do cs' ← add c cs; constraint_set more cs'

unfoldable pub get_optional_constraint : ConstraintType → ConstraintSet → Option Constraint
unfolding type_of same_type
get_optional_constraint t = find (λ c. same_type (type_of c) t)

unfoldable pub get_constraint_types : ConstraintSet → List ConstraintType
unfolding type_of
get_constraint_types = map type_of

abbrev pub predicate_of : Option Constraint → Option ExpressionNode
predicate_of (some (row_filter p)) = some p
predicate_of _ = none

abbrev pub name_of : Option Constraint → Option Text
name_of (some (exposed_name n)) = some n
name_of _ = none

abbrev pub projection_of : Option Constraint → Option (List ProjectionItem)
projection_of (some (column_rewrite items)) = some items
projection_of _ = none

-- `EquivalenceBuilder._current_filter` and `_exposed_name`
unfoldable pub current_filter : ConstraintSet → Option ExpressionNode
unfolding get_optional_constraint
current_filter cs = predicate_of (get_optional_constraint row_filters cs)

unfoldable pub exposed_name_of : ConstraintSet → Option Text
unfolding get_optional_constraint
exposed_name_of cs = name_of (get_optional_constraint exposed cs)

same_names : List Text → List Text → Bool
same_names [] [] = true
same_names [] (y ∷ ys) = false
same_names (x ∷ xs) [] = false
same_names (x ∷ xs) (y ∷ ys) = text_eq x y && same_names xs ys

aliases : EqNode → List Text
aliases (source_node s) = map (λ n. n.alias) (signature_of_source s)
aliases (query_node q) = map (λ n. n.alias) (signature_of_query q)

unfoldable pub takes_name : Text → EqNode → Bool
takes_name name (source_node (relation_source r)) = text_eq (materialized_name r) name
takes_name name _ = true

-- `meets_constraint` of each class
unfoldable pub meets_constraint : Constraint → EqNode → Bool
unfolding same_names aliases takes_name
meets_constraint (column_rewrite items) node = same_names (aliases node) (map (λ i. i.alias) items)
meets_constraint (exposed_name name) node = takes_name name node
meets_constraint _ node = true
