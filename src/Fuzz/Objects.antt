-- ===== src/Fuzz/Objects.antt =====
-- eqgen/fuzz/compare.py: whether the two sides' objects agree, in rows and declared types, under
-- every name that a workload reads. A side is what `Database.multiset` and `column_types` read.
pub mod Gate
use coa.Base.{
  zero, suc, Bool, true, false, not, ◌&&◌, if◌then◌else◌, List, [], ◌∷◌, ◌++◌, map, ◌≡◌, refl, ◌↔◌,
  length, All, arith,
}
use coa.Base.Text.{Text, codes, text_eq, text_eq_iff, join}
use coa.Base.Decimal.{str}
use coa.Fuzz.Multiset.{Counter, MultisetDiff}

pub record Side (Row : Type 0) : Type 0 where
  pub multiset : Text → List Text → Counter Row
  pub column_types : Text → List Text → List Text

pub record ObjectComparison (Row : Type 0) : Type 0 where
  pub rows : MultisetDiff Row
  pub base_types : List Text
  pub equivalent_types : List Text

-- `==` on two tuples of `str`
unfoldable pub texts_eq : List Text → List Text → Bool
texts_eq [] [] = true
texts_eq [] (t ∷ ts) = false
texts_eq (s ∷ ss) [] = false
texts_eq (s ∷ ss) (t ∷ ts) = text_eq s t && texts_eq ss ts

pub texts_eq_iff : (ss ts : List Text) → (texts_eq ss ts ≡ true) ↔ (ss ≡ ts)
unfolding texts_eq
texts_eq_iff [] [] = (λ _. refl, λ _. refl)
texts_eq_iff [] (t ∷ ts) = (λ h. cc, λ h. cc)
texts_eq_iff (s ∷ ss) [] = (λ h. cc, λ h. cc)
texts_eq_iff (s ∷ ss) (t ∷ ts) = ground (arith, text_eq_iff s t, texts_eq_iff ss ts)

abbrev pub names_or_seed : List Text → Text → List Text
names_or_seed [] seed = seed ∷ []
names_or_seed (n ∷ ns) seed = n ∷ ns

module _ {Row : Type 0} where
  unfoldable pub types_agree : ObjectComparison Row → Bool
  unfolding texts_eq
  types_agree c = texts_eq c.base_types c.equivalent_types

  unfoldable pub object_equal : ObjectComparison Row → Bool
  unfolding types_agree
  object_equal c = c.rows.equal && types_agree c

  -- `ObjectComparison.verdict`; the argument prints the two tuples of types
  unfoldable pub object_verdict : (List Text → Text) → ObjectComparison Row → Text
  unfolding object_equal types_agree join str
  object_verdict print c =
      let rows_reason =
        codes "rows differ: "
        ++ str (length c.rows.only_in_base)
        ++ codes " only in base, "
        ++ str (length c.rows.only_in_other)
        ++ codes " only in equivalent" in
      let types_reason =
        codes "types differ: base "
        ++ print c.base_types
        ++ codes " vs equivalent "
        ++ print c.equivalent_types in
      let reasons =
        (if not c.rows.equal then rows_reason ∷ [] else [])
        ++ (if not (types_agree c) then types_reason ∷ [] else []) in
      if object_equal c
      then (elim c.rows.reconciled [
        | zero ↦ codes "OK (rows and declared types agree)"
        | suc n ↦
            codes "OK (rows and declared types agree; "
            ++ str (suc n)
            ++ codes " row(s) reconciled by float tolerance)"
      ])
      else codes "NOT EQUIVALENT -- " ++ join (codes "; ") reasons

  -- the loop of `compare_env`, with `comparisons[0]` for its end
  unfoldable pub first_unequal :
      ObjectComparison Row → List (ObjectComparison Row) → ObjectComparison Row
  unfolding object_equal
  first_unequal first [] = first
  first_unequal first (c ∷ cs) =
      let later = first_unequal first cs in if not (object_equal c) then c else later

  module _ (compare : Counter Row → Counter Row → MultisetDiff Row)
      (base equivalent : Side Row) where
    -- `compare_objects`, under the table's name
    unfoldable pub compare_objects : Text → List Text → ObjectComparison Row
    compare_objects name columns = record {
      rows = compare (base.multiset name columns) (equivalent.multiset name columns);
      base_types = base.column_types name columns;
      equivalent_types = equivalent.column_types name columns;
    }

    -- `compare_env`, from the catalog's name
    unfoldable pub compare_env : Text → List Text → List Text → ObjectComparison Row
    unfolding compare_objects first_unequal
    compare_env seed columns [] = let c = compare_objects seed columns in first_unequal c (c ∷ [])
    compare_env seed columns (n ∷ ns) =
        let c = compare_objects n columns in
        first_unequal c (c ∷ map (λ name. compare_objects name columns) ns)
