-- ===== src/Fuzz/Samples/Rows.antt =====
-- eqgen/fuzz/journal.py: the rows that `sample_rows` returns.
use coa.Base.{
  ℕ, zero, suc, ◌+◌, ◌-◌, max, Bool, true, false, if◌then◌else◌, List, [], ◌∷◌, ◌≡◌, refl, ap, ◌∙◌,
  inl, length, any, All, arith,
}
use mathlib.Core.List.{Memᴰ}
use mathlib.Core.List.Memᴰ
use coa.Core.Catalog.{Column}
use coa.Fuzz.Samples.{
  Cell, infinite, null, pool_for, is_pk, is_double, put, change, second, number_rows, draw_row,
  draw_rows, null_row, force_infinity, awkward_rows, sample_rows,
}
use coa.Fuzz.Samples.Fit.{
  FitsRow, null-InPool, infinite-Allowed, null_row-FitsRow, put-FitsRow, change-All, set_last-All,
  second-All, length-change, length-set_last, length-number_rows, number_rows-FitsRow,
}

-- `rng.choice` returns a member of a pool that is not empty
abbrev pub Chooses : (ℕ → ℕ → List Cell → Cell) → Type 0
Chooses choice = (i j : ℕ) (x : Cell) (xs : List Cell) → Memᴰ (choice i j (x ∷ xs)) (x ∷ xs)

module _ (choice : ℕ → ℕ → List Cell → Cell) (chooses : Chooses choice) where
  chosen : (i j : ℕ) (x : Cell) (pool : List Cell) → Memᴰ x pool → Memᴰ (choice i j pool) pool
  chosen i j x [] h = absurd (Memᴰ.not-nil h)
  chosen i j x (y ∷ pool) h = chooses i j y pool

  draw_row-FitsRow :
      (allow_inf : Bool) (i j : ℕ) (cs : List Column)
      → FitsRow allow_inf cs (draw_row choice allow_inf i j cs)
  unfolding draw_row
  draw_row-FitsRow allow_inf i j [] = tt
  draw_row-FitsRow allow_inf i j (c ∷ cs) = (
    inl (chosen i j null (pool_for allow_inf c.data_type) (null-InPool allow_inf c)),
    draw_row-FitsRow allow_inf i (j + 1) cs,
  )

  draw_rows-FitsRow :
      (allow_inf : Bool) (cs : List Column) (i left : ℕ)
      → All (FitsRow allow_inf cs) (draw_rows choice allow_inf cs i left)
  unfolding draw_rows
  draw_rows-FitsRow allow_inf cs i zero = tt
  draw_rows-FitsRow allow_inf cs i (suc left) =
      (draw_row-FitsRow allow_inf i 0 cs, draw_rows-FitsRow allow_inf cs (i + 1) left)

  length-draw_rows :
      (allow_inf : Bool) (cs : List Column) (i left : ℕ)
      → length (draw_rows choice allow_inf cs i left) ≡ left
  unfolding draw_rows
  length-draw_rows allow_inf cs i zero = refl
  length-draw_rows allow_inf cs i (suc left) = ap suc (length-draw_rows allow_inf cs (i + 1) left)

  force_infinity-FitsRow :
      (allow_inf : Bool) (cs : List Column) (rows : List (List Cell))
      → All (FitsRow allow_inf cs) rows
      → All (FitsRow allow_inf cs) (force_infinity choice allow_inf cs rows)
  unfolding force_infinity
  force_infinity-FitsRow false cs rows h = h
  force_infinity-FitsRow true cs rows h =
      change-All (FitsRow true cs) (put is_double (infinite false) cs)
        (put-FitsRow true is_double (infinite false) (infinite-Allowed false) cs) 2 _
        (change-All (FitsRow true cs) (put is_double (infinite true) cs)
          (put-FitsRow true is_double (infinite true) (infinite-Allowed true) cs) 1 rows h)

  length-force_infinity :
      (allow_inf : Bool) (cs : List Column) (rows : List (List Cell))
      → length (force_infinity choice allow_inf cs rows) ≡ length rows
  unfolding force_infinity
  length-force_infinity false cs rows = refl
  length-force_infinity true cs rows =
      length-change 2 (put is_double (infinite false) cs)
        (change 1 (put is_double (infinite true) cs) rows)
      ∙ length-change 1 (put is_double (infinite true) cs) rows

  awkward_rows-FitsRow :
      (allow_inf : Bool) (cs : List Column) (count : ℕ)
      → All (FitsRow allow_inf cs) (awkward_rows choice allow_inf cs count)
        × (length (awkward_rows choice allow_inf cs count) ≡ max count 3)
  unfolding awkward_rows
  awkward_rows-FitsRow allow_inf cs count =
      let drawn = draw_rows choice allow_inf cs 1 (max count 3 - 1) in
      let start = null_row choice allow_inf cs ∷ drawn in
      let rows = force_infinity choice allow_inf cs start in
      let many = length-force_infinity allow_inf cs start in
      let drawn_many = length-draw_rows allow_inf cs 1 (max count 3 - 1) in
      let fits =
        force_infinity-FitsRow allow_inf cs start
          (null_row-FitsRow allow_inf cs, draw_rows-FitsRow allow_inf cs 1 (max count 3 - 1)) in
      (
        set_last-All (FitsRow allow_inf cs) (second rows) rows
            (second-All (FitsRow allow_inf cs) rows (omega (arith, many, drawn_many)) fits) fits,
        omega (arith, length-set_last (second rows) rows, many, drawn_many),
      )

  -- Where the random choice returns a member of a pool that is not empty, the rows sampled for a
  -- table with a column have one cell for each column, which is a value of the column's pool or, in
  -- the key column, a number; and there are as many rows as were asked for, and at least three.
  pub sample_rows-FitsRow :
      (allow_inf : Bool) (c : Column) (cs : List Column) (count : ℕ)
      → All (FitsRow allow_inf (c ∷ cs)) (sample_rows choice allow_inf (c ∷ cs) count)
        × (length (sample_rows choice allow_inf (c ∷ cs) count) ≡ max count 3)
  unfolding sample_rows
  sample_rows-FitsRow allow_inf c cs count =
      let rows = awkward_rows choice allow_inf (c ∷ cs) count in
      let (fits, many) = awkward_rows-FitsRow allow_inf (c ∷ cs) count in
      keyed (any is_pk (c ∷ cs)) rows fits many
    where
      keyed :
          (b : Bool) (rows : List (List Cell))
          → All (FitsRow allow_inf (c ∷ cs)) rows
          → length rows ≡ max count 3
          → (let numbered = number_rows (c ∷ cs) 1 rows in
              All (FitsRow allow_inf (c ∷ cs)) (if b then numbered else rows)
              × (length (if b then numbered else rows) ≡ max count 3))
      keyed true rows fits many = (
        number_rows-FitsRow allow_inf (c ∷ cs) 1 rows fits,
        length-number_rows (c ∷ cs) 1 rows ∙ many,
      )
      keyed false rows fits many = (fits, many)
