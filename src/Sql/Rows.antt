-- ===== src/Sql/Rows.antt =====
-- Rows that have given columns, and the projections and assignments that leave such a row as it is.
use coa.Base.{
  Bool, true, false, if◌then◌else◌, none, some, List, [], ◌∷◌, ◌≡◌, ◌≢◌, refl, sym, ap, subst, map,
  All,
}
use coa.Base.Text.{Text, text_eq, text_eq_iff}
use coa.Core.Catalog.{Named, Column, column_named}
use coa.Ir.Expr.{ExpressionNode, col}
use coa.Equivalence.Ast.{ProjectionItem}
use coa.Sql.Engine.{Engine, lookup}
use coa.Sql.Executor.{Row, names, project, restrict, assign}

abbrev pub labels {ℓ} : {V : Type ℓ} → List (Text × V) → List Text
labels = map (λ x. x.0)

-- no name stands twice
abbrev pub Distinct : List Text → Type 0
Distinct [] = Unit
Distinct (x ∷ xs) = All (λ y. y ≢ x) xs × Distinct xs

text_eq_refl : (x : Text) → text_eq x x ≡ true
text_eq_refl x = (text_eq_iff x x).1 refl

apart_text_eq : (x y : Text) → x ≢ y → text_eq x y ≡ false
apart_text_eq x y h = by_cases (text_eq x y) refl
  where
    by_cases : (b : Bool) → text_eq x y ≡ b → b ≡ false
    by_cases false e = refl
    by_cases true e = absurd (h ((text_eq_iff x y).0 e))

module _ {ℓ} {V : Type ℓ} where
  -- Every entry of a row is what a lookup of its name finds.
  abbrev pub Found : List (Text × V) → List (Text × V) → Type ℓ
  Found r = All (λ x. lookup x.0 r ≡ some x.1)

  Found-skip :
      (n : Text) (v : V) (r s : List (Text × V))
      → All (λ y. y ≢ n) (labels s)
      → Found r s
      → Found ((n, v) ∷ r) s
  unfolding lookup
  Found-skip n v r [] h f = tt
  Found-skip n v r ((m, w) ∷ s) h f =
      (rw (apart_text_eq n m (λ e. h.0 (sym e))) f.0, Found-skip n v r s h.1 f.1)

  pub Distinct-Found : (r : List (Text × V)) → Distinct (labels r) → Found r r
  unfolding lookup
  Distinct-Found [] d = tt
  Distinct-Found ((n, v) ∷ r) d =
      (rw (text_eq_refl n) refl, Found-skip n v r r d.0 (Distinct-Found r d.1))

pub cons_inj {ℓ} : {A : Type ℓ} {x y : A} {xs ys : List A} → x ∷ xs ≡ y ∷ ys → (x ≡ y) × (xs ≡ ys)
cons_inj h = (cc, cc)

module _ (E : Engine) where
  -- an expression that has the value of a column at every row
  abbrev pub SameValue : Text → ExpressionNode → Type 0
  SameValue n e = (r : Row E) (v : E.Value) → lookup n r ≡ some v → E.value_of r e ≡ v

  -- items that give each column under its own name, by an expression of its value
  abbrev pub RewritesOf : List Named → List ProjectionItem → Type 0
  RewritesOf [] [] = Unit
  RewritesOf [] (i ∷ items) = ⊥
  RewritesOf (n ∷ ns) [] = ⊥
  RewritesOf (n ∷ ns) (i ∷ items) =
      (i.alias ≡ n.alias) × SameValue n.alias i.expression × RewritesOf ns items

  pub labels-project :
      (items : List ProjectionItem) (r : Row E)
      → labels (project E items r) ≡ map (λ i. i.alias) items
  unfolding project
  labels-project [] r = refl
  labels-project (i ∷ items) r = ap (λ xs. i.alias ∷ xs) (labels-project items r)

  pub RewritesOf-aliases :
      (ns : List Named) (items : List ProjectionItem)
      → RewritesOf ns items
      → map (λ i. i.alias) items ≡ names ns
  RewritesOf-aliases [] [] h = refl
  RewritesOf-aliases [] (i ∷ items) h = elim h [ ]
  RewritesOf-aliases (n ∷ ns) [] h = elim h [ ]
  RewritesOf-aliases (n ∷ ns) (i ∷ items) h =
      rw (h.0) (ap (λ xs. n.alias ∷ xs) (RewritesOf-aliases ns items h.2))

  pub project-part :
      (ns : List Named) (items : List ProjectionItem) (r s : Row E)
      → RewritesOf ns items
      → labels s ≡ names ns
      → Found r s
      → project E items r ≡ s
  unfolding project
  project-part [] [] r [] h e f = refl
  project-part [] [] r (x ∷ s) h e f = cc
  project-part [] (i ∷ items) r s h e f = elim h [ ]
  project-part (n ∷ ns) [] r s h e f = elim h [ ]
  project-part (n ∷ ns) (i ∷ items) r [] h e f = cc
  project-part (n ∷ ns) (i ∷ items) r ((m, v) ∷ s) h e f =
      let (p, q) = cons_inj e in
      rw (h.0, ← p, h.1 r v (subst (λ k. lookup k r ≡ some v) p f.0))
        (ap (λ t. (m, v) ∷ t) (project-part ns items r s h.2 q f.1))

  restrict-part : (r s : Row E) → Found r s → restrict E (labels s) r ≡ s
  unfolding restrict
  restrict-part r [] f = refl
  restrict-part r ((n, v) ∷ s) f = rw (f.0) (ap (λ t. (n, v) ∷ t) (restrict-part r s f.1))

  -- A row of the columns, projected by expressions of the columns' values, is the row.
  pub project-RewritesOf :
      (ns : List Named) (items : List ProjectionItem) (r : Row E)
      → Distinct (names ns)
      → labels r ≡ names ns
      → RewritesOf ns items
      → project E items r ≡ r
  project-RewritesOf ns items r d e h =
      project-part ns items r r h e (Distinct-Found r (subst Distinct (sym e) d))

  -- A row of the columns, read under the names of the columns, is the row.
  pub restrict-same :
      (ns : List Named) (r : Row E)
      → Distinct (names ns)
      → labels r ≡ names ns
      → restrict E (names ns) r ≡ r
  restrict-same ns r d e =
      rw (← e) (restrict-part r r (Distinct-Found r (subst Distinct (sym e) d)))

  pub RewritesOf-columns :
      (cs : List Column) (f : Column → ProjectionItem)
      → ((c : Column) → ((f c).alias ≡ c.name) × SameValue c.name (f c).expression)
      → RewritesOf (map column_named cs) (map f cs)
  RewritesOf-columns [] f h = tt
  RewritesOf-columns (c ∷ cs) f h = ((h c).0, (h c).1, RewritesOf-columns cs f h)

  pub SameValue-col : (c : Column) → SameValue c.name (col c.name c.data_type)
  SameValue-col c r v = E.value_col r c.name c.data_type v

  -- `SET column = column`, for each column
  abbrev pub identity_sets : List Named → List (Text × ExpressionNode)
  identity_sets = map (λ n. (n.alias, col n.alias n.target))

  identity_value :
      (ns : List Named) (r : Row E) (name : Text) (v : E.Value)
      → lookup name r ≡ some v
      → (elim (lookup name (identity_sets ns)) [ none ↦ v | some e ↦ E.value_of r e ]) ≡ v
  unfolding lookup
  identity_value [] r name v h = refl
  identity_value (n ∷ ns) r name v h =
      by_cases (text_eq n.alias name) refl (identity_value ns r name v h)
    where
      by_cases :
          (b : Bool)
          → text_eq n.alias name ≡ b
          → (elim (lookup name (identity_sets ns)) [ none ↦ v | some e ↦ E.value_of r e ]) ≡ v
          → (elim (if b then some (col n.alias n.target) else lookup name (identity_sets ns)) [
            | none ↦ v
            | some e ↦ E.value_of r e
          ])
            ≡ v
      by_cases false e rest = rest
      by_cases true e rest =
          E.value_col r n.alias n.target v
            (subst (λ k. lookup k r ≡ some v) (sym ((text_eq_iff n.alias name).0 e)) h)

  assign-part : (ns : List Named) (r s : Row E) → Found r s → assign E (identity_sets ns) r s ≡ s
  unfolding assign
  assign-part ns r [] f = refl
  assign-part ns r ((n, v) ∷ s) f =
      rw (identity_value ns r n v f.0) (ap (λ t. (n, v) ∷ t) (assign-part ns r s f.1))

  -- Writing each column with its own value leaves a row as it is.
  pub assign-identity :
      (ns : List Named) (r : Row E) → Distinct (labels r) → assign E (identity_sets ns) r r ≡ r
  assign-identity ns r d = assign-part ns r r (Distinct-Found r d)

  pub map-same : (f : Row E → Row E) (rs : List (Row E)) → All (λ r. f r ≡ r) rs → map f rs ≡ rs
  map-same f [] h = refl
  map-same f (r ∷ rs) h = rw (h.0) (ap (λ t. r ∷ t) (map-same f rs h.1))
