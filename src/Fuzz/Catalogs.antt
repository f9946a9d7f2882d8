-- ===== src/Fuzz/Catalogs.antt =====
-- eqgen/fuzz/journal.py: the base table of a round. `random.Random` is a parameter: what is chosen
-- from the pool for each column, and the number of columns drawn between two bounds.
pub mod Names
mod Tests
use coa.Base.{
  ℕ, zero, suc, ◌+◌, ◌==◌, leb, Bool, true, false, if◌then◌else◌, Option, none, some, List, [], ◌∷◌,
  ◌++◌,
}
use coa.Base.Text.{Text}
use coa.Base.Decimal.{str}
use coa.Core.Types.{SqlType, plain, integer}
use coa.Core.Catalog.{Column, Table}
use coa.Equivalence.Context.{Counters, get_count, set_count}
use coa.Fuzz.Samples.{pk_column}

-- `catalog_type_pool()`: preferred names and types
abbrev pub Pool : Type 0
Pool = List (Text × SqlType)

-- `preferred if count == 1 else f"{preferred}_{count}"`
unfoldable pub column_name : Text → ℕ → Text
unfolding str
column_name preferred count = if count == 1 then preferred else preferred ++ b'_' ∷ str count

-- the loop over what is drawn; `used` counts the draws of each preferred name
unfoldable pub draw_columns : Pool → Counters → ℕ → List Column
unfolding column_name get_count set_count
draw_columns [] used position = []
draw_columns ((preferred, t) ∷ drawn) used position =
    let count = get_count preferred used + 1 in
    let column : Column = record {
      name = column_name preferred count;
      data_type = t;
      position = position;
      nullable = true;
    } in
    column ∷ draw_columns drawn (set_count preferred count used) (position + 1)

abbrev pub key_column : Column
key_column = record { name = pk_column; data_type = plain integer; position = 1; nullable = false }

abbrev pub table_of : Text → Pool → Table
table_of name drawn = record {
  name = name;
  columns = key_column ∷ draw_columns drawn [] 2;
  schema = none;
}

module _ (choice : ℕ → Pool → Text × SqlType) (randint : ℕ → ℕ → ℕ) where
  -- `rng.choice(pool)`, as often as it is asked for
  unfoldable pub draw_pool : Pool → ℕ → ℕ → Pool
  draw_pool pool i zero = []
  draw_pool pool i (suc left) = choice i pool ∷ draw_pool pool (i + 1) left

  -- `sample_catalog`; `none` is its `ValueError`
  unfoldable pub sample_catalog : Text → Pool → ℕ → ℕ → Option Table
  unfolding draw_columns draw_pool
  sample_catalog name [] min_extra max_extra = none
  sample_catalog name (p ∷ pool) min_extra max_extra =
      let drawn = draw_pool (p ∷ pool) 0 (randint min_extra max_extra) in
      if leb min_extra max_extra then some (table_of name drawn) else none
