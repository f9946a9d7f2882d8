-- ===== src/Equivalence/Contract/Wider.antt =====
-- The builder that adds a column and reads the relation without it.
use mathlib.Core.List.Perm
use coa.Base.{
  Bool, true, false, if◌then◌else◌, none, some, List, [], ◌∷◌, ◌++◌, ◌≡◌, refl, sym, ap, ◌∙◌, subst,
  map, filter, filter_all, perm_of_eq, perm_filter, All, All-map,
}
use coa.Base.Text.{Text, codes, text_eq}
use coa.Core.Catalog.{Named, signature}
use coa.Equivalence.Ast.{
  view, ProjectionItem, select_query, relation_source, no_clauses, signature_of_query,
  signature_of_source,
}
use coa.Equivalence.Constraints.{current_filter, get_optional_constraint}
use coa.Equivalence.Context.{Environment, pure, generate_name}
use coa.Equivalence.Builders.Base.{Ask, dispatch_source, passthrough_items}
use coa.Equivalence.Builders.Creates.{create_as_select}
use coa.Equivalence.Contract.Yields.{Yields, Yields-bind, Yields-then, Yields-pure}
use coa.Equivalence.Contract.Creations.{SameAs, create_as_select-SameAs}
use coa.Equivalence.Contract.Selects.{non_empty-itself}
use coa.Equivalence.Builders.Selects.{build_add_drop_column, extra_item, non_empty}
use coa.Equivalence.Contract.Promise.{
  HoldsQuery, Meets, BaseTable, projection, base-Holds, Holds-rows, dispatch-Holds,
}
use coa.Equivalence.Contract.Columns.{passthrough-RewritesOf, named_aliases}
use coa.Sql.Engine.{Engine, lookup}
use coa.Sql.Logic.{keeps}
use coa.Sql.Executor.{Executor, Row, names, project}
use coa.Sql.Denotation.{rows_of_query, rows_of_relation, rows_of_source}
use coa.Sql.Rows.{
  project-part, project-RewritesOf, RewritesOf-aliases, Distinct-Found, labels, Distinct,
  RewritesOf,
}

map-map-same {ℓ} :
    {A : Type ℓ} (f g : A → A) (xs : List A) → All (λ x. f (g x) ≡ x) xs → map f (map g xs) ≡ xs
map-map-same f g [] h = refl
map-map-same f g (x ∷ xs) h = rw (h.0) (ap (λ t. x ∷ t) (map-map-same f g xs h.1))

module _ {E : Engine} (X : Executor E) (env : Environment) (base : List (Row E)) where
  lookup-append :
      (n : Text) (v : E.Value) (r s : Row E) → lookup n r ≡ some v → lookup n (r ++ s) ≡ some v
  unfolding lookup
  lookup-append n v [] s h = cc
  lookup-append n v ((m, w) ∷ r) s h = step (text_eq m n) (lookup-append n v r s) h
    where
      step :
          (b : Bool)
          → (lookup n r ≡ some v → lookup n (r ++ s) ≡ some v)
          → (if b then some w else lookup n r) ≡ some v
          → (if b then some w else lookup n (r ++ s)) ≡ some v
      step true f e = e
      step false f e = f e

  project-append :
      (xs ys : List ProjectionItem) (r : Row E)
      → project E (xs ++ ys) r ≡ project E xs r ++ project E ys r
  unfolding project
  project-append [] ys r = refl
  project-append (x ∷ xs) ys r =
      ap (λ t. (x.alias, E.value_of r x.expression) ∷ t) (project-append xs ys r)

  -- The columns of a row read through a row that has more of them behind.
  project-wider :
      (ns : List Named) (items more : List ProjectionItem) (r : Row E)
      → Distinct (names ns)
      → labels r ≡ names ns
      → RewritesOf E ns items
      → project E items (project E (items ++ more) r) ≡ r
  project-wider ns items more r d e h =
      rw (project-append items more r, project-RewritesOf E ns items r d e h)
        (project-part E ns items (r ++ project E more r) r h e (
          All-map _ _ r (λ x f. lookup-append x.0 x.1 r (project E more r) f)
            (Distinct-Found r (subst Distinct (sym e) d))))

  -- From a factory that meets the contract for each request (`Meets`): the base columns read from a
  -- view that has a column more, if it is built, are the base rows.
  pub build_add_drop_column-Holds :
      (ask : Ask)
      → BaseTable X env base
      → Meets X env base ask
      → Yields (HoldsQuery X env base []) (build_add_drop_column env ask)
  unfolding build_add_drop_column SameAs rows_of_query rows_of_source signature_of_query
      signature_of_source current_filter projection get_optional_constraint
  build_add_drop_column-Holds ask b m =
      Yields-bind (non_empty (passthrough_items env.base_table)) _
        (non_empty-itself (passthrough_items env.base_table))
        (λ items i.
          let w =
            subst (RewritesOf E (signature env.base_table)) (sym i)
              (passthrough-RewritesOf X env base) in
          Yields-bind (dispatch_source ask []) _ (dispatch-Holds X env base ask [] m) (λ s h.
            Yields-then (generate_name (codes "eq_tmp_col")) _ (λ extra.
              Yields-bind
                (create_as_select env view
                  (select_query s (some (items ++ extra_item extra ∷ [])) none no_clauses) none)
                (λ wider. pure (select_query (relation_source wider) (some items) none no_clauses))
                (create_as_select-SameAs X env base view
                  (select_query s (some (items ++ extra_item extra ∷ [])) none no_clauses) none)
                (λ wider hw.
                  Yields-pure (select_query (relation_source wider) (some items) none no_clauses) (
                    base-Holds X env base
                      (Perm.trans (X.select_plain (some items) none (rows_of_relation X base wider))
                        (rw (filter_all (keeps E none) (rows_of_relation X base wider) (λ _. refl))
                          (Perm.trans
                            (Perm.map (project E items) (
                              Perm.trans hw.0 (
                                Perm.trans (X.select_plain _ none _) (
                                  Perm.map _
                                    (perm_filter (keeps E none) (Holds-rows X env base h))))))
                            (perm_of_eq (through items (extra_item extra ∷ []) b w)))))
                      (named_aliases items
                        ∙ RewritesOf-aliases E (signature env.base_table) items w))))))
    where
      through :
          (items more : List ProjectionItem)
          → BaseTable X env base
          → RewritesOf E (signature env.base_table) items
          → map (project E items) (map (project E (items ++ more)) (filter (keeps E none) base))
            ≡ base
      through items more b w = rw (filter_all (keeps E none) base (λ _. refl)) (
          map-map-same (project E items) (project E (items ++ more)) base (
            All-map _ _ base
              (λ r e. project-wider (signature env.base_table) items more r b.distinct e w)
              b.labelled))
