-- ===== src/Sql/Clauses.antt =====
-- The concrete engine's statements: what each does to rows, with the bag operations by counting.
use mathlib.Core.List
use mathlib.Core.List.{Perm, Mem, List-discrete}
use mathlib.Core.Nat
use mathlib.Mathlib.Data.List.Lattice.{count-bag_inter}
use mathlib.Core.List.Perm
use mathlib.Core.HLevel.{×_discrete}
use mathlib.Core.Option.{discrete}
use native.Mathlib.Decide.{ℕ_discrete}
use coa.Base.{
  Bool, true, false, not, if◌then◌else◌, Option, none, some, List, [], ◌∷◌, ◌++◌, ◌≡◌, refl, sym,
  subst, ap, ◌∙◌, map, filter, filter_all, perm_of_eq,
}
use coa.Base.Text.{Text}
use coa.Core.Catalog.{Named}
use coa.Ir.Expr.{ExpressionNode, qualified_col}
use coa.Core.Types.{SqlType}
use coa.Equivalence.Ast.{JoinType, left_outer, full_outer}
use coa.Sql.Engine.{Engine, lookup}
use coa.Sql.Logic.{keeps}
use coa.Sql.Executor.{
  Executor, Row, names, qualified_items, project, project_optional, restrict, update_row,
}
use coa.Sql.Reference.{Number, reference, value_at, or_null}

abbrev pub or_alone : {A : Type 0} → A → List A → List A
or_alone l [] = l ∷ []
or_alone l (m ∷ ms) = m ∷ ms

abbrev pub keeps_left : JoinType → Bool
keeps_left left_outer = true
keeps_left full_outer = true
keeps_left _ = false

abbrev pub or_value : {A : Type 0} → A → Option A → A
or_value a none = a
or_value a (some v) = v

abbrev pub ReadsLeft : Engine → Type 0
ReadsLeft E =
    (r : Row E) (la name : Text) (t : SqlType)
    → E.value_of r (qualified_col la name t) ≡ or_value E.null (lookup name r)

module _ (E : Engine) (dec : (x y : Row E) → Dec (x ≡ y)) (qualified : ReadsLeft E) where
  abbrev pub Rows : Type 0
  Rows = List (Row E)

  abbrev pub difference : Rows → Rows → Rows
  difference = List.diff dec

  abbrev pub shared : Rows → Rows → Rows
  shared = List.bag_inter dec

  perm_of_counts :
      (a b c : Rows)
      → ((r : Row E) → Nat.◌+◌ (List.count dec r b) (List.count dec r c) ≡ List.count dec r a)
      → Perm a (b ++ c)
  perm_of_counts a b c h =
      (List.perm_iff_count dec {l₁ = a} {l₂ = b ++ c}).1
        (λ r. sym (List.count-append dec r b c ∙ h r))

  count-shared-left :
      (a b : Rows) (r : Row E)
      → Nat.◌+◌ (List.count dec r (shared a b)) (List.count dec r (difference a b))
        ≡ List.count dec r a
  count-shared-left a b r =
      let x = List.count dec r a in
      let y = List.count dec r b in
      ap (λ m. Nat.◌+◌ m (List.count dec r (difference a b))) (count-bag_inter dec r a b)
      ∙ ap (λ m. Nat.◌+◌ (Nat.min x y) m) (List.count-diff dec r a b)
      ∙ Nat.add_comm (Nat.min x y) (Nat.◌-◌ x y)
      ∙ Nat.sub-add-min_cancel x y

  shared_comm :
      (a b : Rows) (r : Row E) → List.count dec r (shared a b) ≡ List.count dec r (shared b a)
  shared_comm a b r =
      count-bag_inter dec r a b
      ∙ Nat.min_comm (List.count dec r a) (List.count dec r b)
      ∙ sym (count-bag_inter dec r b a)

  more_often :
      (a b : Rows) (r : Row E)
      → Mem r (difference a b)
      → Nat.◌<◌ (List.count dec r b) (List.count dec r a)
  more_often a b r m =
      Nat.sub-pos_iff_lt.0
        (subst (λ n. Nat.◌<◌ Nat.zero n) (List.count-diff dec r a b) ((List.count-pos_iff dec).1 m))

  -- what two bags have in common, and what each has beside it
  pub shared_rows :
      (a b : Rows)
      → (a' b' : Rows) × Perm a (shared a b ++ a')
        × Perm b (shared a b ++ b')
        × ((r : Row E) → Mem r a' → Mem r b' → ⊥)
  shared_rows a b = (
    difference a b,
    difference b a,
    perm_of_counts a (shared a b) (difference a b) (count-shared-left a b),
    perm_of_counts b (shared a b) (difference b a) (λ r.
        ap (λ m. Nat.◌+◌ m (List.count dec r (difference b a))) (shared_comm a b r)
        ∙ count-shared-left b a r),
    λ r m k. Nat.lt_irrefl _ (Nat.lt_trans (more_often a b r m) (more_often b a r k)),
  )

  abbrev pub joined : JoinType → Option ExpressionNode → Rows → Rows → Rows
  joined j c [] b = []
  joined j c (l ∷ a) b =
      (let matches = filter (keeps E c) (map (λ r. l ++ r) b) in
        if keeps_left j then or_alone l matches else matches)
      ++ joined j c a b

  joined-nil : (c : Option ExpressionNode) (a : Rows) → joined left_outer c a [] ≡ a
  joined-nil c [] = refl
  joined-nil c (l ∷ a) = ap (λ t. l ∷ t) (joined-nil c a)

  read_left :
      (la : Text) (columns : List Named) (r : Row E)
      → project E (qualified_items la columns) r ≡ restrict E (names columns) r
  unfolding project restrict
  read_left la [] r = refl
  read_left la (n ∷ ns) r =
      rw (qualified r la n.alias n.target) (entry (lookup n.alias r) (read_left la ns r))
    where
      entry :
          (o : Option E.Value)
          → project E (qualified_items la ns) r ≡ restrict E (names ns) r
          → (n.alias, or_value E.null o) ∷ project E (qualified_items la ns) r
            ≡ (n.alias, elim o [ none ↦ E.null | some v ↦ v ]) ∷ restrict E (names ns) r
      entry none h = ap (λ t. (n.alias, E.null) ∷ t) h
      entry (some v) h = ap (λ t. (n.alias, v) ∷ t) h

  map_congr : (f g : Row E → Row E) (a : Rows) → ((r : Row E) → f r ≡ g r) → map f a ≡ map g a
  map_congr f g [] h = refl
  map_congr f g (r ∷ a) h = rw (h r) (ap (λ t. g r ∷ t) (map_congr f g a h))

  pub left_rows :
      (c : ExpressionNode) (columns : List Named) (la : Text) (a : Rows)
      → map
          (project E (qualified_items la columns))
          (filter (keeps E none) (joined left_outer (some c) a []))
        ≡ map (restrict E (names columns)) a
  left_rows c columns la a =
      rw
        (
          filter_all (keeps E none) (joined left_outer (some c) a []) (λ _. refl),
          joined-nil (some c) a,
        )
        (map_congr _ _ a (read_left la columns))

  -- An engine that runs each clause as the standard says, in the order of its rows.
  unfoldable pub clauses : Executor E
  unfolding List.diff
  clauses = record {
    select = λ items p k rs. map (project_optional E items) (filter (keeps E p) rs);
    union_all = λ a b. a ++ b;
    except_all = difference;
    intersect_all = shared;
    join = λ j c items la ra p a b. map (project E items) (filter (keeps E p) (joined j c a b));
    lateral = λ ns rs. map (restrict E ns) rs;
    delete = λ p rs. filter (λ r. not (keeps E p r)) rs;
    insert = λ a b. a ++ b;
    update = λ sets p rs. map (update_row E sets p) rs;
    select_plain = λ items p rs. Perm.refl _;
    select_ordered = λ items p ks rs. Perm.refl _;
    union_all_rows = λ a b. Perm.refl _;
    except_all_nil = λ a. Perm.refl _;
    intersect_all_rows = shared_rows;
    join_left_empty = λ c columns la ra a. perm_of_eq (left_rows c columns la a);
    lateral_rows = λ ns rs. Perm.refl _;
    delete_rows = λ p rs. Perm.refl _;
    insert_rows = λ a b. Perm.refl _;
    update_rows = λ sets p rs. Perm.refl _;
  }

unfoldable pub row_discrete : (x y : Row reference) → Dec (x ≡ y)
unfolding reference
row_discrete = List-discrete (×_discrete (List-discrete ℕ_discrete) (discrete ℕ_discrete))

pub qualified_value :
    (r : Row reference) (la name : Text) (t : SqlType)
    → reference.value_of r (qualified_col la name t) ≡ or_value reference.null (lookup name r)
unfolding reference value_at
qualified_value r la name t = read (lookup name r)
  where
    read : (o : Option Number) → or_null o ≡ or_value none o
    read none = refl
    read (some v) = refl

unfoldable pub reference_executor : Executor reference
unfolding reference clauses
reference_executor = clauses reference row_discrete qualified_value
