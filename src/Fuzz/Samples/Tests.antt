-- ===== src/Fuzz/Samples/Tests.antt =====
-- eqgen/fuzz/journal.py: the rows of a small table, when the first cell of each pool is drawn.
use coa.Base.{ℕ, max, true, false, none, List, [], ◌∷◌, ◌≡◌, refl, length, All}
use coa.Base.Text.{codes}
use coa.Core.Types.{integer, double}
use coa.Core.Catalog.{Column}
use coa.Fuzz.Samples.{Cell, null, infinite, key, sample_rows, pk_column}
use coa.Fuzz.Samples.Fit.{FitsRow}
use coa.Fuzz.Samples.Rows.{Chooses, sample_rows-FitsRow}
use mathlib.Core.List.Memᴰ

abbrev first_drawn : ℕ → ℕ → List Cell → Cell
first_drawn i j [] = null
first_drawn i j (x ∷ pool) = x

first_drawn-Chooses : Chooses first_drawn
first_drawn-Chooses i j x xs = Memᴰ.head refl

abbrev key_column : Column
key_column = record {
  name = pk_column;
  data_type = record { kind = integer; precision = none; scale = none };
  position = 0;
  nullable = false;
}

abbrev double_column : Column
double_column = record {
  name = codes "c_1";
  data_type = record { kind = double; precision = none; scale = none };
  position = 1;
  nullable = true;
}

two_sampled :
    sample_rows first_drawn true (key_column ∷ double_column ∷ []) 2
    ≡ (key 1 ∷ null ∷ []) ∷ (key 2 ∷ infinite true ∷ []) ∷ (key 3 ∷ infinite true ∷ []) ∷ []
unfolding sample_rows
two_sampled = refl

sample_rows-FitsRow_example :
    All
      (FitsRow true (key_column ∷ double_column ∷ []))
      (sample_rows first_drawn true (key_column ∷ double_column ∷ []) 4)
    × (length (sample_rows first_drawn true (key_column ∷ double_column ∷ []) 4) ≡ max 4 3)
sample_rows-FitsRow_example =
    sample_rows-FitsRow first_drawn first_drawn-Chooses true key_column (double_column ∷ []) 4
