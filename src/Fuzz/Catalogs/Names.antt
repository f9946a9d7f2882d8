-- ===== src/Fuzz/Catalogs/Names.antt =====
-- eqgen/fuzz/journal.py: the columns that `sample_catalog` draws.
use coa.Base.{
  ℕ, zero, suc, ◌+◌, ◌<◌, ◌≤◌, ◌==◌, leb, Bool, true, false, if◌then◌else◌, none, some, List, [],
  ◌∷◌, ◌++◌, ◌≡◌, ◌≢◌, ◌⊎◌, inl, inr, refl, sym, ap, ◌∙◌, subst, map, length, All, All-map, arith,
}
use mathlib.Core.List.{Memᴰ}
use mathlib.Core.List.Memᴰ
use coa.Base.Text.{Text}
use coa.Base.Decimal.{str, IsDigit, str-IsDigit}
use coa.Core.Types.{SqlType}
use coa.Core.Catalog.{Column, Table}
use coa.Equivalence.Context.{Counters, get_count, set_count}
use coa.Equivalence.Names.{object_name, object_name_inj, raised_count, this_count}
use coa.Sql.Rows.{Distinct}
use coa.Fuzz.Samples.{pk_column}
use coa.Fuzz.Catalogs.{Pool, column_name, draw_columns, draw_pool, table_of, sample_catalog}

abbrev last_code : ℕ → Text → ℕ
last_code d [] = d
last_code d (c ∷ s) = last_code c s

-- A preferred name: not the key's, and with neither a digit nor `_` at its end.
abbrev pub IsLabel : Text → Type 0
IsLabel p = (IsDigit (last_code 0 p) → ⊥) × (last_code 0 p ≢ b'_') × (p ≢ pk_column)

last_code-append : (d c : ℕ) (s t : Text) → last_code d (s ++ c ∷ t) ≡ last_code c t
last_code-append d c [] t = refl
last_code-append d c (x ∷ s) t = last_code-append x c s t

last_code-digits :
    (d : ℕ) (s : Text) → All IsDigit s → (last_code d s ≡ d) ⊎ IsDigit (last_code d s)
last_code-digits d [] h = inl refl
last_code-digits d (c ∷ s) h = elim (last_code-digits c s h.1) [
  | inl same ↦ inr (subst IsDigit (sym same) h.0)
  | inr digit ↦ inr digit
]

-- the end of a numbered name
ends-object_name :
    (q : Text) (n : ℕ)
    → (last_code 0 (object_name q n) ≡ b'_') ⊎ IsDigit (last_code 0 (object_name q n))
ends-object_name q n =
    subst (λ c. (c ≡ b'_') ⊎ IsDigit c) (sym (last_code-append 0 b'_' q (str n)))
      (last_code-digits b'_' (str n) (str-IsDigit n))

-- a name that ends in no digit and no `_` is no numbered name
label-unnumbered :
    (p q : Text) (n : ℕ)
    → (IsDigit (last_code 0 p) → ⊥)
    → last_code 0 p ≢ b'_'
    → p ≢ object_name q n
label-unnumbered p q n h k e = elim (ends-object_name q n) [
  | inl low ↦ k (ap (last_code 0) e ∙ low)
  | inr digit ↦ h (subst (λ t. IsDigit (last_code 0 t)) (sym e) digit)
]

column_name_inj :
    (p q : Text) (m n : ℕ)
    → IsLabel p
    → IsLabel q
    → column_name p m ≡ column_name q n
    → (p ≡ q) × (m ≡ n)
unfolding column_name
column_name_inj p q m n hp hq e = by_count (m == 1) (n == 1) refl refl e
  where
    is_one : (k : ℕ) → (k == 1) ≡ true → k ≡ 1
    is_one k h = ground (arith, h)

    by_count :
        (a b : Bool)
        → (m == 1) ≡ a
        → (n == 1) ≡ b
        → (if a then p else object_name p m) ≡ (if b then q else object_name q n)
        → (p ≡ q) × (m ≡ n)
    by_count true true ea eb e = (e, is_one m ea ∙ sym (is_one n eb))
    by_count true false ea eb e = absurd (label-unnumbered p q n hp.0 hp.1 e)
    by_count false true ea eb e = absurd (label-unnumbered q p m hq.0 hq.1 (sym e))
    by_count false false ea eb e = object_name_inj p q m n e

-- a name with a number that the count of its preferred name has not reached
abbrev Unused : Counters → Text → Type 0
Unused used name =
    (p : Text) × (n : ℕ) × (name ≡ column_name p n) × IsLabel p × (get_count p used < n)

abbrev names_of : List Column → List Text
names_of = map (λ c. c.name)

names-Unused :
    (drawn : Pool) (used : Counters) (i : ℕ)
    → All (λ d. IsLabel d.0) drawn
    → All (Unused used) (names_of (draw_columns drawn used i))
unfolding draw_columns
names-Unused [] used i h = tt
names-Unused ((k, t) ∷ drawn) used i h = (
  (k, get_count k used + 1, refl, h.0, omega arith),
  All-map (Unused (set_count k (get_count k used + 1) used)) (Unused used) _
      (λ name (p, n, e, l, less). (p, n, e, l, omega (arith, less, raised_count k p used)))
      (names-Unused drawn (set_count k (get_count k used + 1) used) (i + 1) h.1),
)

names-Distinct :
    (drawn : Pool) (used : Counters) (i : ℕ)
    → All (λ d. IsLabel d.0) drawn
    → Distinct (names_of (draw_columns drawn used i))
unfolding draw_columns
names-Distinct [] used i h = tt
names-Distinct ((k, t) ∷ drawn) used i h = (
  All-map (Unused next) _ _ apart (names-Unused drawn next (i + 1) h.1),
  names-Distinct drawn next (i + 1) h.1,
)
  where
    next : Counters
    next = set_count k (get_count k used + 1) used

    apart : (name : Text) → Unused next name → name ≢ column_name k (get_count k used + 1)
    apart name (p, n, e, l, less) same =
        let (kp, mn) = column_name_inj k p (get_count k used + 1) n h.0 l (sym same ∙ e) in
        omega
          (arith, less, ap (λ q. get_count q next) kp, this_count k (get_count k used + 1) used, mn)

key-Unused : (name : Text) → Unused [] name → name ≢ pk_column
unfolding column_name
key-Unused name (p, n, e, l, less) same = by_count (n == 1) refl (sym same ∙ e)
  where
    by_count : (b : Bool) → (n == 1) ≡ b → pk_column ≡ (if b then p else object_name p n) → ⊥
    by_count true eb e = l.2 (sym e)
    by_count false eb e =
        label-unnumbered pk_column p n (λ h. omega (arith, h)) (λ h. omega (arith, h)) e

length-draw_columns :
    (drawn : Pool) (used : Counters) (i : ℕ) → length (draw_columns drawn used i) ≡ length drawn
unfolding draw_columns
length-draw_columns [] used i = refl
length-draw_columns ((k, t) ∷ drawn) used i = ap suc (length-draw_columns drawn _ (i + 1))

All-Member : {A : Type 0} (P : A → Type 0) (y : A) (xs : List A) → All P xs → Memᴰ y xs → P y
All-Member P y [] h k = absurd (Memᴰ.not-nil k)
All-Member P y (x ∷ xs) h (Memᴰ.head e) = subst P (sym e) h.0
All-Member P y (x ∷ xs) h (Memᴰ.tail k) = All-Member P y xs h.1 k

-- `rng.choice` returns a member of a pool that is not empty
abbrev pub Chooses : (ℕ → Pool → Text × SqlType) → Type 0
Chooses choice = (i : ℕ) (x : Text × SqlType) (xs : Pool) → Memᴰ (choice i (x ∷ xs)) (x ∷ xs)

-- `rng.randint` returns a number between its bounds
abbrev pub Between : (ℕ → ℕ → ℕ) → Type 0
Between randint = (low high : ℕ) → low ≤ high → (low ≤ randint low high) × (randint low high ≤ high)

module _ (choice : ℕ → Pool → Text × SqlType) (chooses : Chooses choice) (randint : ℕ → ℕ → ℕ)
    (between : Between randint) where
  draw_pool-All :
      (P : Text × SqlType → Type 0) (q : Text × SqlType) (pool : Pool) (i left : ℕ)
      → All P (q ∷ pool)
      → All P (draw_pool choice randint (q ∷ pool) i left)
  unfolding draw_pool
  draw_pool-All P q pool i zero h = tt
  draw_pool-All P q pool i (suc left) h =
      (All-Member P _ (q ∷ pool) h (chooses i q pool), draw_pool-All P q pool (i + 1) left h)

  length-draw_pool :
      (pool : Pool) (i left : ℕ) → length (draw_pool choice randint pool i left) ≡ left
  unfolding draw_pool
  length-draw_pool pool i zero = refl
  length-draw_pool pool i (suc left) = ap suc (length-draw_pool pool (i + 1) left)

  -- Where the random choice returns a member of a pool that is not empty, the random number keeps
  -- to its bounds, and each preferred name is not the key's and ends in neither a digit nor an
  -- underscore: a table is sampled for bounds in order, with columns of different names, however
  -- often a name is drawn, and as many as the bounds allow beside the key.
  pub sample_catalog-Distinct :
      (name : Text) (q : Text × SqlType) (pool : Pool) (min_extra max_extra : ℕ)
      → All (λ d. IsLabel d.0) (q ∷ pool)
      → min_extra ≤ max_extra
      → (t : Table) × (sample_catalog choice randint name (q ∷ pool) min_extra max_extra ≡ some t)
        × Distinct (map (λ c. c.name) t.columns)
        × (min_extra + 1 ≤ length t.columns)
        × (length t.columns ≤ max_extra + 1)
  unfolding sample_catalog
  sample_catalog-Distinct name q pool min_extra max_extra labels bounds =
      let drawn = draw_pool choice randint (q ∷ pool) 0 (randint min_extra max_extra) in
      let labelled =
        draw_pool-All (λ d. IsLabel d.0) q pool 0 (randint min_extra max_extra) labels in
      let many =
        length-draw_columns drawn [] 2
        ∙ length-draw_pool (q ∷ pool) 0 (randint min_extra max_extra) in
      let (low, high) = between min_extra max_extra bounds in
      (
        table_of name drawn,
        ap (λ b. if b then some (table_of name drawn) else none)
            (leb_true min_extra max_extra bounds),
        (
          All-map (Unused []) (λ y. y ≢ pk_column) _ key-Unused (names-Unused drawn [] 2 labelled),
          names-Distinct drawn [] 2 labelled,
        ),
        omega (arith, many, low),
        omega (arith, many, high),
      )
    where
      leb_true : (m n : ℕ) → m ≤ n → leb m n ≡ true
      leb_true m n h = ground (arith, h)
