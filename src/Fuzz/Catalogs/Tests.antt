-- ===== src/Fuzz/Catalogs/Tests.antt =====
-- eqgen/fuzz/journal.py: a table whose columns are all drawn from the first entry of the pool.
use coa.Base.{ℕ, ◌+◌, ◌≤◌, some, [], ◌∷◌, ◌≡◌, refl, map, length, arith}
use coa.Base.Text.{Text, codes, text_eq}
use coa.Core.Types.{SqlType, plain, integer, text}
use coa.Core.Catalog.{Table}
use coa.Sql.Rows.{Distinct}
use coa.Fuzz.Catalogs.{Pool, draw_columns, sample_catalog}
use coa.Fuzz.Catalogs.Names.{IsLabel, Chooses, Between, sample_catalog-Distinct}
use mathlib.Core.List.Memᴰ

abbrev integers : Text × SqlType
integers = (codes "c_int", plain integer)

abbrev texts : Text × SqlType
texts = (codes "c_txt", plain text)

abbrev first_drawn : ℕ → Pool → Text × SqlType
first_drawn i [] = integers
first_drawn i (x ∷ pool) = x

first_drawn-Chooses : Chooses first_drawn
first_drawn-Chooses i x xs = Memᴰ.head refl

abbrev greatest : ℕ → ℕ → ℕ
greatest low high = high

greatest-Between : Between greatest
greatest-Between low high h = (h, omega arith)

three_names :
    map (λ c. c.name) (draw_columns (integers ∷ texts ∷ integers ∷ []) [] 2)
    ≡ codes "c_int" ∷ codes "c_txt" ∷ codes "c_int_2" ∷ []
unfolding draw_columns text_eq
three_names = refl

codes_apart : (m n : ℕ) (s t : Text) → m ∷ s ≡ n ∷ t → m ≡ n
codes_apart m n s t h = cc

int-IsLabel : IsLabel (codes "c_int")
int-IsLabel = (λ h. omega (arith, h), λ h. omega (arith, h), λ h. cc)

txt-IsLabel : IsLabel (codes "c_txt")
txt-IsLabel = (λ h. omega (arith, h), λ h. omega (arith, h), λ h. cc)

sample_catalog-Distinct_example :
    (t : Table) × (sample_catalog first_drawn greatest (codes "t") (integers ∷ texts ∷ []) 1 8
      ≡ some t)
    × Distinct (map (λ c. c.name) t.columns)
    × (1 + 1 ≤ length t.columns)
    × (length t.columns ≤ 8 + 1)
sample_catalog-Distinct_example =
    sample_catalog-Distinct first_drawn first_drawn-Chooses greatest greatest-Between (codes "t")
      integers (texts ∷ []) 1 8 (int-IsLabel, (txt-IsLabel, tt)) (omega arith)
