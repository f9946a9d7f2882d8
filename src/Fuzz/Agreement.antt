-- ===== src/Fuzz/Agreement.antt =====
-- What the comparison of two counters tells of the rows on the two sides.
use coa.Base.{
  ℕ, ◌+◌, ◌-◌, ◌≤◌, ◌==◌, ==_iff, min, Bool, true, false, not, ◌&&◌, ◌||◌, if◌then◌else◌, [], ◌∷◌,
  ◌≡◌, refl, arith,
}
use coa.Fuzz.Multiset.{
  Counter, count, subtract, consume_exact, pair_row, consume_close, leftover, is_empty,
  compare_multisets,
}

pub and_parts : (a b : Bool) → (a && b) ≡ true → (a ≡ true) × (b ≡ true)
and_parts true b h = (refl, h)
and_parts false b h = cc

-- the number of rows, duplicates counted
unfoldable pub total : {Row : Type 0} → Counter Row → ℕ
total [] = 0
total (k ∷ counter) = k.1 + total counter

module _ {Row : Type 0} (same close : Row → Row → Bool) where
  total-subtract :
      (row : Row) (shared : ℕ) (counter : Counter Row)
      → shared ≤ count same close row counter
      → total (subtract same close row shared counter) + shared ≡ total counter
  unfolding count subtract total
  total-subtract row shared [] h = omega (arith, h)
  total-subtract row shared ((r, n) ∷ counter) h =
      step (same r row) h (total-subtract row shared counter)
    where
      step :
          (b : Bool)
          → shared ≤ (if b then n else count same close row counter)
          → (shared ≤ count same close row counter
              → total (subtract same close row shared counter) + shared ≡ total counter)
          → total (
                if b
                then (r, n - shared) ∷ counter
                else (r, n) ∷ subtract same close row shared counter)
              + shared
            ≡ n + total counter
      step true h ih = omega (arith, h)
      step false h ih = omega (arith, ih h)

  -- The exact loop takes as many rows from one side as from the other.
  pub consume_exact-total :
      (missing extra : Counter Row)
      → total (consume_exact same close missing extra).0 + total extra
        ≡ total missing + total (consume_exact same close missing extra).1
  unfolding consume_exact total
  consume_exact-total [] extra = omega arith
  consume_exact-total ((row, n) ∷ missing) extra = omega (
    arith,
    consume_exact-total missing
        (subtract same close row (min n (count same close row extra)) extra),
    total-subtract row (min n (count same close row extra)) extra (omega arith),
  )

  -- what is left of a row and of the other side, and how many were paired
  record Paired (n : ℕ) (extra : Counter Row) (x : ℕ × Counter Row × ℕ) : Type 0 where
    taken : x.0 + total extra ≡ n + total x.1
    counted : x.0 + x.2 ≡ n

  pair_row-Paired :
      (row : Row) (n : ℕ) (extra : Counter Row) → Paired n extra (pair_row same close row n extra)
  unfolding pair_row total
  pair_row-Paired row n [] = record { taken = refl; counted = omega arith }
  pair_row-Paired row n ((o, m) ∷ extra) =
      step (m == 0 || same o row || not (close row o)) (n - min n m == 0) refl
        (pair_row-Paired row n extra) (pair_row-Paired row (n - min n m) extra)
    where
      step :
          (skip done : Bool)
          → (n - min n m == 0) ≡ done
          → Paired n extra (pair_row same close row n extra)
          → Paired (n - min n m) extra (pair_row same close row (n - min n m) extra)
          → Paired n ((o, m) ∷ extra) (
              if skip
              then (
                (pair_row same close row n extra).0,
                (o, m) ∷ (pair_row same close row n extra).1,
                (pair_row same close row n extra).2,
              )
              else (if done then (0, (o, m - min n m) ∷ extra, min n m) else (
                (pair_row same close row (n - min n m) extra).0,
                (o, m - min n m) ∷ (pair_row same close row (n - min n m) extra).1,
                min n m + (pair_row same close row (n - min n m) extra).2,
              )))
      step true done e h k = record { taken = omega (arith, h.taken); counted = h.counted }
      step false true e h k = record {
        taken = omega (arith, (==_iff (n - min n m) 0).0 e);
        counted = omega (arith, (==_iff (n - min n m) 0).0 e);
      }
      step false false e h k = record {
        taken = omega (arith, k.taken);
        counted = omega (arith, k.counted);
      }

  guarded-Paired :
      (row : Row) (n : ℕ) (extra : Counter Row) (b : Bool)
      → Paired n extra (if b then (n, extra, 0) else pair_row same close row n extra)
  guarded-Paired row n extra true = record { taken = refl; counted = omega arith }
  guarded-Paired row n extra false = pair_row-Paired row n extra

  -- The approximate loop too, and it counts each row that it takes.
  pub consume_close-total :
      (missing extra : Counter Row)
      → (total (consume_close same close missing extra).0 + total extra
          ≡ total missing + total (consume_close same close missing extra).1)
        × (total (consume_close same close missing extra).0
              + (consume_close same close missing extra).2
            ≡ total missing)
  unfolding consume_close total
  consume_close-total [] extra = (omega arith, omega arith)
  consume_close-total ((row, n) ∷ missing) extra =
      let p = guarded-Paired row n extra (n == 0) in
      let (rest, counted) =
        consume_close-total missing
          (if n == 0 then (n, extra, 0) else pair_row same close row n extra).1 in
      (omega (arith, p.taken, rest), omega (arith, p.counted, counted))

  pub leftover-total : (counter : Counter Row) → total (leftover counter) ≡ total counter
  unfolding total
  leftover-total [] = refl
  leftover-total ((r, n) ∷ counter) = ground (arith, leftover-total counter)

  pub is_empty-total : (counter : Counter Row) → is_empty counter ≡ true → total counter ≡ 0
  unfolding total
  is_empty-total [] h = refl
  is_empty-total (k ∷ counter) h = cc

  module _ (by_repr : Counter Row → Counter Row) (base other : Counter Row) where
    -- If the order of the report keeps the number of rows, the rows listed for the base alone and
    -- all rows of the other side are together as many as the rows listed for the other side alone
    -- and all rows of the base: neither loop of the comparison loses or makes up a row on one side.
    pub compare_multisets-total :
        ((counter : Counter Row) → total (by_repr counter) ≡ total counter)
        → total (compare_multisets same close by_repr base other).only_in_base + total other
          ≡ total base + total (compare_multisets same close by_repr base other).only_in_other
    unfolding compare_multisets
    compare_multisets-total keeps =
        let (missing, extra) = consume_exact same close base other in
        let final = consume_close same close missing extra in
        omega (
          arith,
          keeps (leftover final.0),
          keeps (leftover final.1),
          leftover-total final.0,
          leftover-total final.1,
          consume_exact-total base other,
          (consume_close-total missing extra).0,
        )

    -- Two sides that compare as equal have equally many rows, duplicates counted, also where the
    -- tolerance was needed.
    pub compare_multisets-equal-total :
        (compare_multisets same close by_repr base other).equal ≡ true → total base ≡ total other
    unfolding compare_multisets
    compare_multisets-equal-total h =
        let (missing, extra) = consume_exact same close base other in
        let final = consume_close same close missing extra in
        let (no_missing, no_extra) =
          and_parts (is_empty (leftover final.0)) (is_empty (leftover final.1)) h in
        omega (
          arith,
          is_empty-total (leftover final.0) no_missing,
          is_empty-total (leftover final.1) no_extra,
          leftover-total final.0,
          leftover-total final.1,
          consume_exact-total base other,
          (consume_close-total missing extra).0,
        )
