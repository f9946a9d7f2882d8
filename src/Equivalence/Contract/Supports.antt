-- ===== src/Equivalence/Contract/Supports.antt =====
-- What a builder's declared support says of the sets that it is run with.
use coa.Base.{
  ◌==◌, ==_iff, Bool, true, false, ◌&&◌, if◌then◌else◌, none, some, List, [], ◌∷◌, ◌≡◌, ◌≢◌, refl,
  sym, ap, ◌∙◌, any, find,
}
use coa.Equivalence.Constraints.{
  ConstraintType, ConstraintSet, type_of, same_type, type_index, get_constraint_types,
  get_optional_constraint, row_filters, rewrites, current_filter, predicate_of, projection_of,
}
use coa.Equivalence.Factory.Dispatch.{subset, is_eligible}
use coa.Equivalence.Factory.Classes.{BuilderClass, Kind, supported_constraint_types}
use coa.Equivalence.Contract.Promise.{projection}

and_parts : (a b : Bool) → (a && b) ≡ true → (a ≡ true) × (b ≡ true)
and_parts true b h = (refl, h)
and_parts false b h = cc

true_is_not_false : true ≢ false
true_is_not_false h = cc

any-index :
    (s t : ConstraintType) (us : List ConstraintType)
    → same_type s t ≡ true
    → any (same_type s) us ≡ any (same_type t) us
unfolding same_type
any-index s t us h =
    ap (λ i. any (λ u. i == type_index u) us) ((==_iff (type_index s) (type_index t)).0 h)

-- A set that a builder supports has no constraint of a type that the builder does not name.
pub unsupported :
    (t : ConstraintType) (us : List ConstraintType) (cs : ConstraintSet)
    → subset (get_constraint_types cs) us ≡ true
    → any (same_type t) us ≡ false
    → get_optional_constraint t cs ≡ none
unfolding get_constraint_types get_optional_constraint
unsupported t us [] h e = refl
unsupported t us (c ∷ cs) h e =
    let p = and_parts (any (same_type (type_of c)) us) (subset (get_constraint_types cs) us) h in
    step (same_type (type_of c) t) refl p.0 (unsupported t us cs p.1 e)
  where
    step :
        (b : Bool)
        → same_type (type_of c) t ≡ b
        → any (same_type (type_of c)) us ≡ true
        → find (λ c. same_type (type_of c) t) cs ≡ none
        → (if b then some c else find (λ c. same_type (type_of c) t) cs) ≡ none
    step true k q r = absurd (true_is_not_false (sym q ∙ any-index (type_of c) t us k ∙ e))
    step false k q r = r

pub no_filter :
    (us : List ConstraintType) (cs : ConstraintSet)
    → subset (get_constraint_types cs) us ≡ true
    → any (same_type row_filters) us ≡ false
    → current_filter cs ≡ none
unfolding current_filter
no_filter us cs h e = ap predicate_of (unsupported row_filters us cs h e)

pub no_projection :
    (us : List ConstraintType) (cs : ConstraintSet)
    → subset (get_constraint_types cs) us ≡ true
    → any (same_type rewrites) us ≡ false
    → projection cs ≡ none
unfolding projection
no_projection us cs h e = ap projection_of (unsupported rewrites us cs h e)

pub nothing_supported : (cs : ConstraintSet) → subset (get_constraint_types cs) [] ≡ true → cs ≡ []
unfolding get_constraint_types
nothing_supported [] h = refl
nothing_supported (c ∷ cs) h = cc

-- an eligible builder supports the set that it is run with
pub is_eligible-supports :
    (kind : Kind) (cs : ConstraintSet) (leaves : Bool) (b : BuilderClass)
    → is_eligible kind cs leaves b ≡ true
    → subset (get_constraint_types cs) (supported_constraint_types b) ≡ true
unfolding is_eligible
is_eligible-supports kind cs leaves b h = first_of _ _ _ _ h
  where
    first_of : (w x y z : Bool) → (w && x && y && z) ≡ true → w ≡ true
    first_of true x y z h = refl
    first_of false x y z h = h
