-- ===== src/Fuzz/Samples.antt =====
-- eqgen/fuzz/journal.py: the awkward rows of the base table. `random.Random` is a parameter: what is
-- chosen from a pool for a row and a column. A number that Python writes in decimals is its text.
pub mod Fit
pub mod Rows
mod Tests
use coa.Base.{
  ℕ, zero, suc, ◌+◌, ◌-◌, max, Bool, true, false, if◌then◌else◌, Option, none, some, List, [], ◌∷◌,
  ◌++◌, map, any,
}
use coa.Base.Text.{Text, codes, text_eq}
use coa.Core.Types.{
  SqlType, TypeKind, get_scale, integer, numeric, double, varchar, char, text, boolean, date,
  timestamp, jsonb, uuid, int4range,
}
use coa.Core.Catalog.{Column, Table}

pub data Cell : Type 0 where
  null : Cell
  truth : Bool → Cell
  number string : Text → Cell
  infinite : (positive : Bool) → Cell
  key : ℕ → Cell

abbrev pub numbers : List Text → List Cell
numbers [] = null ∷ []
numbers (t ∷ ts) = number t ∷ numbers ts

abbrev pub strings : List Text → List Cell
strings [] = null ∷ []
strings (t ∷ ts) = string t ∷ strings ts

abbrev pub whole_numbers : List Cell
whole_numbers =
    numbers (codes "0" ∷ codes "1" ∷ codes "2" ∷ codes "-1" ∷ codes "-7" ∷ codes "42" ∷ [])

abbrev pub numeric_pool : Option ℕ → List Cell
numeric_pool none = whole_numbers
numeric_pool (some zero) = whole_numbers
numeric_pool (some (suc scale)) =
    numbers (codes "0.0" ∷ codes "12.34" ∷ codes "-5.5" ∷ codes "999.99" ∷ [])

abbrev pub double_pool : List Cell
double_pool = numbers (codes "0.0" ∷ codes "1.5" ∷ codes "-1.5" ∷ codes "1000.125" ∷ [])

abbrev pub text_pool : List Cell
text_pool =
    strings ([] ∷ codes "a" ∷ codes "abc" ∷ codes "Zed" ∷ codes "o'brien" ∷ codes "trailing " ∷ [])

abbrev pub kind_pool : Bool → TypeKind → Option ℕ → List Cell
kind_pool allow_inf boolean scale = truth true ∷ truth false ∷ null ∷ []
kind_pool true double scale = double_pool ++ infinite true ∷ infinite false ∷ []
kind_pool false double scale = double_pool
kind_pool allow_inf integer scale = numeric_pool scale
kind_pool allow_inf numeric scale = numeric_pool scale
kind_pool allow_inf date scale =
    strings (codes "2024-01-15" ∷ codes "1999-12-31" ∷ codes "2030-06-01" ∷ [])
kind_pool allow_inf timestamp scale =
    strings (codes "2024-01-15 12:34:56" ∷ codes "1999-12-31 23:59:59" ∷ [])
kind_pool allow_inf jsonb scale = strings (
    codes "{}"
    ∷ codes "[]"
    ∷ codes "{\"a\": 1}"
    ∷ codes "{\"k\": \"v\", \"n\": null}"
    ∷ codes "{\"a\": [1, 2]}"
    ∷ [])
kind_pool allow_inf uuid scale = strings (
    codes "00000000-0000-0000-0000-000000000000"
    ∷ codes "550e8400-e29b-41d4-a716-446655440000"
    ∷ codes "ffffffff-ffff-ffff-ffff-ffffffffffff"
    ∷ [])
kind_pool allow_inf int4range scale =
    strings (codes "empty" ∷ codes "[1,10)" ∷ codes "[0,100]" ∷ codes "(,)" ∷ codes "[-5,5]" ∷ [])
kind_pool allow_inf text scale = text_pool
kind_pool allow_inf char scale = text_pool
kind_pool allow_inf varchar scale = text_pool

-- `_pool_for`
unfoldable pub pool_for : Bool → SqlType → List Cell
unfolding get_scale
pool_for allow_inf t = kind_pool allow_inf t.kind (get_scale t)

-- `PK_COLUMN`
abbrev pub pk_column : Text
pk_column = codes "c_pk"

unfoldable pub is_pk : Column → Bool
unfolding text_eq
is_pk c = text_eq c.name pk_column

abbrev pub kind_is_double : TypeKind → Bool
kind_is_double double = true
kind_is_double _ = false

-- `isinstance(column.get_data_type(), DoubleType)`
unfoldable pub is_double : Column → Bool
is_double c = kind_is_double c.data_type.kind

-- the row with a cell put in the first column that passes a test, where one does
unfoldable pub put : (Column → Bool) → Cell → List Column → List Cell → List Cell
put test cell [] row = row
put test cell (c ∷ cs) [] = []
put test cell (c ∷ cs) (x ∷ row) =
    let later = put test cell cs row in if test c then cell ∷ row else x ∷ later

-- `rows[i] = f(rows[i])`
unfoldable pub change : ℕ → (List Cell → List Cell) → List (List Cell) → List (List Cell)
change i f [] = []
change zero f (row ∷ rows) = f row ∷ rows
change (suc i) f (row ∷ rows) = row ∷ change i f rows

-- `rows[-1] = row`
unfoldable pub set_last : List Cell → List (List Cell) → List (List Cell)
set_last row [] = []
set_last row (r ∷ []) = row ∷ []
set_last row (r ∷ s ∷ rows) = r ∷ set_last row (s ∷ rows)

-- `rows[1]`
abbrev pub second : List (List Cell) → List Cell
second (r ∷ s ∷ rows) = s
second _ = []

-- the key column counts from `n`
unfoldable pub number_rows : List Column → ℕ → List (List Cell) → List (List Cell)
unfolding put is_pk
number_rows columns n [] = []
number_rows columns n (row ∷ rows) =
    put is_pk (key n) columns row ∷ number_rows columns (n + 1) rows

module _ (choice : ℕ → ℕ → List Cell → Cell) (allow_inf : Bool) where
  unfoldable pub draw_row : ℕ → ℕ → List Column → List Cell
  unfolding pool_for
  draw_row i j [] = []
  draw_row i j (c ∷ cs) = choice i j (pool_for allow_inf c.data_type) ∷ draw_row i (j + 1) cs

  unfoldable pub draw_rows : List Column → ℕ → ℕ → List (List Cell)
  unfolding draw_row
  draw_rows columns i zero = []
  draw_rows columns i (suc left) = draw_row i 0 columns ∷ draw_rows columns (i + 1) left

  abbrev pub null_row : List Column → List Cell
  null_row = map (λ c. null)

  -- `+Inf` and `-Inf` in the first `DOUBLE` column of rows 1 and 2
  unfoldable pub force_infinity : List Column → List (List Cell) → List (List Cell)
  unfolding put change is_double
  force_infinity columns rows =
      if allow_inf
      then change 2 (put is_double (infinite false) columns)
          (change 1 (put is_double (infinite true) columns) rows)
      else rows

  -- the rows before the key column is numbered
  unfoldable pub awkward_rows : List Column → ℕ → List (List Cell)
  unfolding draw_rows force_infinity set_last
  awkward_rows columns count =
      let rows =
        force_infinity columns (null_row columns ∷ draw_rows columns 1 (max count 3 - 1)) in
      set_last (second rows) rows

  -- `sample_rows`
  unfoldable pub sample_rows : List Column → ℕ → List (List Cell)
  unfolding awkward_rows number_rows is_pk
  sample_rows [] count = []
  sample_rows (c ∷ cs) count =
      let rows = awkward_rows (c ∷ cs) count in
      let numbered = number_rows (c ∷ cs) 1 rows in if any is_pk (c ∷ cs) then numbered else rows
