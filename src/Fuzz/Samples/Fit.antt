-- ===== src/Fuzz/Samples/Fit.antt =====
-- eqgen/fuzz/journal.py: what every sampled row holds.
use coa.Base.{
  ℕ, zero, suc, ◌+◌, ◌≤◌, Bool, true, false, Option, none, some, List, [], ◌∷◌, ◌||◌, ◌≡◌, refl, ap,
  ◌⊎◌, inl, inr, map, length, any, All, Bool-cases, arith,
}
use mathlib.Core.List.{Memᴰ}
use coa.Core.Types.{
  TypeKind, get_scale, integer, numeric, double, varchar, char, text, boolean, date, timestamp,
  jsonb, uuid, int4range,
}
use coa.Core.Catalog.{Column}
use coa.Fuzz.Samples.{
  Cell, null, infinite, key, kind_pool, pool_for, is_pk, kind_is_double, is_double, put, change,
  set_last, second, number_rows,
}

-- a value of the column's pool, or a number in the key column
abbrev pub Allowed : Bool → Column → Cell → Type 0
Allowed allow_inf c x =
    Memᴰ x (pool_for allow_inf c.data_type) ⊎ ((is_pk c ≡ true) × (n : ℕ) × (x ≡ key n))

-- one allowed cell for each column
abbrev pub FitsRow : Bool → List Column → List Cell → Type 0
FitsRow allow_inf [] [] = Unit
FitsRow allow_inf (c ∷ cs) (x ∷ row) = Allowed allow_inf c x × FitsRow allow_inf cs row
FitsRow allow_inf _ _ = ⊥

abbrev is_null : Cell → Bool
is_null null = true
is_null _ = false

abbrev is_infinite : Bool → Cell → Bool
is_infinite true (infinite true) = true
is_infinite false (infinite false) = true
is_infinite _ _ = false

is_null_sound : (x : Cell) → is_null x ≡ true → null ≡ x
is_null_sound null h = refl
is_null_sound _ h = cc

is_infinite_sound : (b : Bool) (x : Cell) → is_infinite b x ≡ true → infinite b ≡ x
is_infinite_sound true (infinite true) h = refl
is_infinite_sound false (infinite false) h = refl
is_infinite_sound _ _ h = cc

-- a cell that a test finds in a pool
found :
    (test : Cell → Bool) (y : Cell)
    → ((x : Cell) → test x ≡ true → y ≡ x)
    → (pool : List Cell) → any test pool ≡ true
    → Memᴰ y pool
found test y sound [] h = cc
found test y sound (x ∷ pool) h = elim (Bool-cases (test x)) [
  | inl here ↦ Memᴰ.head (sound x here)
  | inr there ↦ Memᴰ.tail (found test y sound pool (rest (test x) there h))
]
  where
    rest : (b : Bool) → b ≡ false → b || any test pool ≡ true → any test pool ≡ true
    rest b e h = ground arith

has_null :
    (allow_inf : Bool) (k : TypeKind) (s : Option ℕ) → any is_null (kind_pool allow_inf k s) ≡ true
has_null b boolean s = refl
has_null true double s = refl
has_null false double s = refl
has_null b integer none = refl
has_null b integer (some zero) = refl
has_null b integer (some (suc s)) = refl
has_null b numeric none = refl
has_null b numeric (some zero) = refl
has_null b numeric (some (suc s)) = refl
has_null b date s = refl
has_null b timestamp s = refl
has_null b jsonb s = refl
has_null b uuid s = refl
has_null b int4range s = refl
has_null b text s = refl
has_null b char s = refl
has_null b varchar s = refl

has_infinite :
    (positive : Bool) (k : TypeKind) (s : Option ℕ)
    → kind_is_double k ≡ true
    → any (is_infinite positive) (kind_pool true k s) ≡ true
has_infinite true double s h = refl
has_infinite false double s h = refl
has_infinite b _ s h = cc

pub null-InPool : (allow_inf : Bool) (c : Column) → Memᴰ null (pool_for allow_inf c.data_type)
unfolding pool_for
null-InPool allow_inf c =
    found is_null null is_null_sound (kind_pool allow_inf c.data_type.kind (get_scale c.data_type))
      (has_null allow_inf c.data_type.kind (get_scale c.data_type))

pub infinite-Allowed :
    (positive : Bool) (c : Column) → is_double c ≡ true → Allowed true c (infinite positive)
unfolding pool_for is_double
infinite-Allowed positive c h = inl (
    found (is_infinite positive) (infinite positive) (is_infinite_sound positive)
      (kind_pool true c.data_type.kind (get_scale c.data_type))
      (has_infinite positive c.data_type.kind (get_scale c.data_type) h))

pub null_row-FitsRow :
    (allow_inf : Bool) (cs : List Column) → FitsRow allow_inf cs (map (λ c. null) cs)
null_row-FitsRow allow_inf [] = tt
null_row-FitsRow allow_inf (c ∷ cs) = (inl (null-InPool allow_inf c), null_row-FitsRow allow_inf cs)

pub put-FitsRow :
    (allow_inf : Bool) (test : Column → Bool) (x : Cell)
    → ((c : Column) → test c ≡ true → Allowed allow_inf c x)
    → (cs : List Column) (row : List Cell) → FitsRow allow_inf cs row
    → FitsRow allow_inf cs (put test x cs row)
unfolding put
put-FitsRow allow_inf test x ok [] row h = h
put-FitsRow allow_inf test x ok (c ∷ cs) [] h = h
put-FitsRow allow_inf test x ok (c ∷ cs) (y ∷ row) h = elim (Bool-cases (test c)) [
  | inl yes_here ↦ rw yes_here (ok c yes_here, h.1)
  | inr later ↦ rw later (h.0, put-FitsRow allow_inf test x ok cs row h.1)
]

module _ (P : List Cell → Type 0) where
  pub change-All :
      (f : List Cell → List Cell)
      → ((row : List Cell) → P row → P (f row))
      → (i : ℕ) (rows : List (List Cell)) → All P rows
      → All P (change i f rows)
  unfolding change
  change-All f ok i [] h = tt
  change-All f ok zero (row ∷ rows) h = (ok row h.0, h.1)
  change-All f ok (suc i) (row ∷ rows) h = (h.0, change-All f ok i rows h.1)

  pub set_last-All :
      (row : List Cell) (rows : List (List Cell)) → P row → All P rows → All P (set_last row rows)
  unfolding set_last
  set_last-All row [] h k = tt
  set_last-All row (r ∷ []) h k = (h, tt)
  set_last-All row (r ∷ s ∷ rows) h k = (k.0, set_last-All row (s ∷ rows) h k.1)

  pub second-All : (rows : List (List Cell)) → 2 ≤ length rows → All P rows → P (second rows)
  second-All [] h k = absurd (omega arith)
  second-All (r ∷ []) h k = absurd (omega arith)
  second-All (r ∷ s ∷ rows) h k = k.1.0

pub length-change :
    (i : ℕ) (f : List Cell → List Cell) (rows : List (List Cell))
    → length (change i f rows) ≡ length rows
unfolding change
length-change i f [] = refl
length-change zero f (row ∷ rows) = refl
length-change (suc i) f (row ∷ rows) = ap suc (length-change i f rows)

pub length-set_last :
    (row : List Cell) (rows : List (List Cell)) → length (set_last row rows) ≡ length rows
unfolding set_last
length-set_last row [] = refl
length-set_last row (r ∷ []) = refl
length-set_last row (r ∷ s ∷ rows) = ap suc (length-set_last row (s ∷ rows))

pub length-number_rows :
    (cs : List Column) (n : ℕ) (rows : List (List Cell))
    → length (number_rows cs n rows) ≡ length rows
unfolding number_rows
length-number_rows cs n [] = refl
length-number_rows cs n (row ∷ rows) = ap suc (length-number_rows cs (n + 1) rows)

pub number_rows-FitsRow :
    (allow_inf : Bool) (cs : List Column) (n : ℕ) (rows : List (List Cell))
    → All (FitsRow allow_inf cs) rows
    → All (FitsRow allow_inf cs) (number_rows cs n rows)
unfolding number_rows
number_rows-FitsRow allow_inf cs n [] h = tt
number_rows-FitsRow allow_inf cs n (row ∷ rows) h = (
  put-FitsRow allow_inf is_pk (key n) (λ c e. inr (e, n, refl)) cs row h.0,
  number_rows-FitsRow allow_inf cs (n + 1) rows h.1,
)
