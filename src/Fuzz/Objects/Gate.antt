-- ===== src/Fuzz/Objects/Gate.antt =====
-- eqgen/fuzz/compare.py: the gate passes exactly if every exposed name agrees.
use coa.Base.{true, false, List, [], ◌∷◌, map, ◌≡◌, refl, ◌↔◌, All, arith, Bool-cases, inl, inr}
use coa.Base.Text.{Text}
use coa.Fuzz.Multiset.{Counter, MultisetDiff}
use coa.Fuzz.Objects.{
  Side, ObjectComparison, object_equal, types_agree, texts_eq_iff, compare_objects, first_unequal,
  names_or_seed, compare_env,
}

module _ {Row : Type 0} where
  AllEqual : List (ObjectComparison Row) → Type 0
  AllEqual = All (λ c. object_equal c ≡ true)

  true_and_false : (c : ObjectComparison Row) → object_equal c ≡ true → object_equal c ≡ false → ⊥
  true_and_false c e f = cc

  first_unequal-equal :
      (first : ObjectComparison Row) (cs : List (ObjectComparison Row))
      → object_equal first ≡ true
      → (object_equal (first_unequal first cs) ≡ true) ↔ AllEqual cs
  unfolding first_unequal AllEqual
  first_unequal-equal first [] h = (λ _. tt, λ _. h)
  first_unequal-equal first (c ∷ cs) h = elim (Bool-cases (object_equal c)) [
    | inl same ↦
        let rest = first_unequal-equal first cs h in
        rw same (λ k. (refl, rest.0 k), λ k. rest.1 k.1)
    | inr apart ↦ (
      λ k. absurd (true_and_false c (rw apart at k) apart),
      λ k. absurd (true_and_false c k.0 apart),
    )
  ]

  object_equal_iff :
      (c : ObjectComparison Row)
      → (object_equal c ≡ true) ↔ ((c.rows.equal ≡ true) × (c.base_types ≡ c.equivalent_types))
  unfolding object_equal types_agree
  object_equal_iff c = ground (arith, texts_eq_iff c.base_types c.equivalent_types)

  module _ (compare : Counter Row → Counter Row → MultisetDiff Row)
      (base equivalent : Side Row) where
    -- the two sides agree in the rows and the types read under a name
    abbrev pub Agree : List Text → Text → Type 0
    Agree columns name =
        ((compare (base.multiset name columns) (equivalent.multiset name columns)).equal ≡ true)
        × (base.column_types name columns ≡ equivalent.column_types name columns)

    names-Agree :
        (columns names : List Text)
        → AllEqual (map (λ name. compare_objects compare base equivalent name columns) names)
          ↔ All (Agree columns) names
    unfolding AllEqual compare_objects
    names-Agree columns [] = (λ _. tt, λ _. tt)
    names-Agree columns (n ∷ ns) =
        let here = object_equal_iff (compare_objects compare base equivalent n columns) in
        let there = names-Agree columns ns in
        (λ h. (here.0 h.0, there.0 h.1), λ h. (here.1 h.0, there.1 h.1))

    gate :
        (columns : List Text) (n : Text) (ns : List Text)
        → (let c = compare_objects compare base equivalent n columns in
            object_equal (
              first_unequal c
                (c ∷ map (λ name. compare_objects compare base equivalent name columns) ns))
            ≡ true)
          ↔ All (Agree columns) (n ∷ ns)
    unfolding first_unequal compare_objects
    gate columns n ns =
        let c = compare_objects compare base equivalent n columns in
        let agree = names-Agree columns (n ∷ ns) in
        elim (Bool-cases (object_equal c)) [
          | inl same ↦
              let every =
                first_unequal-equal c
                  (c ∷ map (λ name. compare_objects compare base equivalent name columns) ns)
                  same in
              (λ h. agree.0 (every.0 h), λ h. every.1 (agree.1 h))
          | inr apart ↦ (
            λ h. absurd (true_and_false c (rw apart at h) apart),
            λ h. absurd (true_and_false c ((object_equal_iff c).1 h.0) apart),
          )
        ]

    -- The gate of a round passes exactly when the two sides agree, under every name of the
    -- workload, in their rows and in their types; without names it is the seed's name.
    pub compare_env-equal :
        (seed : Text) (columns names : List Text)
        → (object_equal (compare_env compare base equivalent seed columns names) ≡ true)
          ↔ All (Agree columns) (names_or_seed names seed)
    unfolding compare_env
    compare_env-equal seed columns [] = gate columns seed []
    compare_env-equal seed columns (n ∷ ns) = gate columns n ns
