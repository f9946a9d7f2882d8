-- ===== src/Equivalence/Contract/Promise.antt =====
-- What a build promises under a set of constraints, and what it relies on of the builds that it
-- asks for: the rows of the base table, filtered and projected as the set says, under its names.
use mathlib.Core.List.{Perm}
use mathlib.Core.List.Perm
use coa.Base.{
  Option, none, some, List, [], ◌∷◌, ◌≡◌, refl, subst, ◌⊎◌, inl, inr, map, filter, filter_all,
  perm_filter, All,
}
use coa.Base.Text.{Text}
use coa.Core.Catalog.{Named, signature}
use coa.Ir.Expr.{ExpressionNode}
use coa.Equivalence.Ast.{
  no_clauses, ProjectionItem, Source, EquivalentRelation, QueryNode, signature_of_source,
  signature_of_relation, signature_of_query,
}
use coa.Equivalence.Constraints.{
  ConstraintSet, row_filter, accepts_dml, single_source, column_rewrite, tag_channel, key_channel,
  exposed_name, single, constraint_set, add, type_of, same_type, get_optional_constraint, rewrites,
  tags, keys, current_filter, projection_of,
}
use coa.Equivalence.Context.{Environment, merge_refused}
use coa.Equivalence.Builders.Base.{Ask, make_set, dispatch_source}
use coa.Equivalence.Contract.Yields.{Yields, IfSome, Yields-bind, Yields-or_raise}
use coa.Sql.Engine.{Engine}
use coa.Sql.Logic.{keeps}
use coa.Sql.Executor.{Executor, Row, names, project_optional}
use coa.Sql.Denotation.{rows_of_source, rows_of_relation, rows_of_query}
use coa.Sql.Rows.{labels, Distinct, map-same}

unfoldable pub projection : ConstraintSet → Option (List ProjectionItem)
projection cs = projection_of (get_optional_constraint rewrites cs)

-- a set that asks for neither a tag nor a key
pub record Plain (cs : ConstraintSet) : Type 0 where
  pub untagged : get_optional_constraint tags cs ≡ none
  pub unkeyed : get_optional_constraint keys cs ≡ none

-- a set that asks for the base rows as they are
pub record Unconstrained (cs : ConstraintSet) : Type 0 where
  pub plain : Plain cs
  pub no_filter : current_filter cs ≡ none
  pub no_projection : projection cs ≡ none

abbrev pub expected_names : List Named → Option (List ProjectionItem) → List Text
expected_names ns none = names ns
expected_names ns (some items) = map (λ i. i.alias) items

module _ {E : Engine} (X : Executor E) (env : Environment) (base : List (Row E)) where
  abbrev pub filtered : Option ExpressionNode → List (Row E)
  filtered p = filter (keeps E p) base

  -- the rows and names that a filter and a projection ask for
  pub record Holds (p : Option ExpressionNode) (items : Option (List ProjectionItem))
      (rs : List (Row E)) (ns : List Named) : Type 0 where
    pub rows : Perm rs (map (project_optional E items) (filtered p))
    pub named : names ns ≡ expected_names (signature env.base_table) items

  abbrev pub HoldsQuery : ConstraintSet → QueryNode → Type 0
  HoldsQuery cs q =
      Holds (current_filter cs) (projection cs) (rows_of_query X base q) (signature_of_query q)

  abbrev pub HoldsRelation : ConstraintSet → EquivalentRelation → Type 0
  HoldsRelation cs r =
      Holds (current_filter cs) (projection cs) (rows_of_relation X base r)
        (signature_of_relation r)

  abbrev pub HoldsSource : ConstraintSet → Source → Type 0
  HoldsSource cs s =
      Holds (current_filter cs) (projection cs) (rows_of_source X base s) (signature_of_source s)

  -- what a factory promises for each request
  pub record Meets (ask : Ask) : Type 0 where
    pub source : (cs : ConstraintSet) → Plain cs → Yields (HoldsSource cs) (ask.source cs)
    pub relation : (cs : ConstraintSet) → Plain cs → Yields (HoldsRelation cs) (ask.relation cs)
    pub query : (cs : ConstraintSet) → Plain cs → Yields (HoldsQuery cs) (ask.query cs)

  -- the base table: its names differ, and its rows have a value for each
  pub record BaseTable : Type 0 where
    pub distinct : Distinct (names (signature env.base_table))
    pub labelled : All (λ r. labels r ≡ names (signature env.base_table)) base

  unprojected_rows : (rs : List (Row E)) → All (λ r. project_optional E none r ≡ r) rs
  unprojected_rows [] = tt
  unprojected_rows (r ∷ rs) = (refl, unprojected_rows rs)

  pub unprojected : (rs : List (Row E)) → map (project_optional E none) rs ≡ rs
  unprojected rs = map-same E (project_optional E none) rs (unprojected_rows rs)

  unfiltered : map (project_optional E none) (filtered none) ≡ base
  unfiltered = rw (unprojected (filtered none)) (filter_all (keeps E none) base (λ r. refl))

  pub filtered-Holds :
      {p : Option ExpressionNode} {rs : List (Row E)} {ns : List Named}
      → Perm rs (filtered p)
      → names ns ≡ names (signature env.base_table)
      → Holds p none rs ns
  filtered-Holds {p} h e = record { rows = rw (unprojected (filtered p)) h; named = e }

  pub Holds-filtered :
      {p : Option ExpressionNode} {rs : List (Row E)} {ns : List Named}
      → Holds p none rs ns
      → Perm rs (filtered p)
  Holds-filtered {p} {rs} h = subst (Perm rs) (unprojected (filtered p)) h.rows

  -- asked for the base rows as they are
  pub base-Holds :
      {rs : List (Row E)} {ns : List Named}
      → Perm rs base
      → names ns ≡ names (signature env.base_table)
      → Holds none none rs ns
  base-Holds h e = record { rows = rw unfiltered h; named = e }

  pub Holds-rows : {rs : List (Row E)} {ns : List Named} → Holds none none rs ns → Perm rs base
  Holds-rows {rs} h = subst (Perm rs) unfiltered h.rows

  -- a `SELECT` over the base rows
  pub select-rows :
      (items : Option (List ProjectionItem)) (p : Option ExpressionNode) (rs : List (Row E))
      → Perm rs base
      → Perm (X.select items p no_clauses rs) (map (project_optional E items) (filtered p))
  select-rows items p rs h =
      Perm.trans (X.select_plain items p rs)
        (Perm.map (project_optional E items) (perm_filter (keeps E p) h))

  get_single :
      (cs : ConstraintSet)
      → (get_optional_constraint single cs ≡ none)
        ⊎ (get_optional_constraint single cs ≡ some single_source)
  unfolding get_optional_constraint type_of same_type
  get_single [] = inl refl
  get_single (row_filter p ∷ cs) = get_single cs
  get_single (accepts_dml ∷ cs) = get_single cs
  get_single (single_source ∷ cs) = inr refl
  get_single (column_rewrite items ∷ cs) = get_single cs
  get_single (tag_channel n k ∷ cs) = get_single cs
  get_single (key_channel k ∷ cs) = get_single cs
  get_single (exposed_name n ∷ cs) = get_single cs

  pub only_single :
      (cs : ConstraintSet)
      → IfSome Unconstrained (constraint_set (get_optional_constraint single cs ∷ []) [])
  unfolding constraint_set add get_optional_constraint type_of same_type current_filter projection
  only_single cs = elim (get_single cs) [
    | inl e ↦ rw e (record {
      plain = record { untagged = refl; unkeyed = refl };
      no_filter = refl;
      no_projection = refl;
    })
    | inr e ↦ rw e (record {
      plain = record { untagged = refl; unkeyed = refl };
      no_filter = refl;
      no_projection = refl;
    })
  ]

  -- The source that a build reads holds the base rows, whatever the build itself was asked for.
  pub dispatch-Holds :
      (ask : Ask) (cs : ConstraintSet)
      → Meets ask
      → Yields
          (λ s. Holds none none (rows_of_source X base s) (signature_of_source s))
          (dispatch_source ask cs)
  unfolding dispatch_source make_set
  dispatch-Holds ask cs m =
      Yields-bind (make_set (get_optional_constraint single cs ∷ [])) (λ f. ask.source f)
        (Yields-or_raise (constraint_set (get_optional_constraint single cs ∷ []) []) merge_refused
          (only_single cs))
        (λ f u. subst_source f u (m.source f u.plain))
    where
      subst_source :
          (f : ConstraintSet)
          → Unconstrained f
          → Yields (HoldsSource f) (ask.source f)
          → Yields
              (λ s. Holds none none (rows_of_source X base s) (signature_of_source s))
              (ask.source f)
      subst_source f u h =
          subst
            (λ p.
              Yields (λ s. Holds p none (rows_of_source X base s) (signature_of_source s))
                (ask.source f))
            u.no_filter
            (subst
              (λ i.
                Yields
                  (λ s.
                    Holds (current_filter f) i (rows_of_source X base s) (signature_of_source s))
                  (ask.source f))
              u.no_projection h)
