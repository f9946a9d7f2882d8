-- ===== src/Fuzz/Schedule/Measure.antt =====
-- eqgen/fuzz/schedule.py: the walk of `measure_complexity` ends, visits each node once, and goes no
-- deeper than it has visited nodes.
use coa.Base.{
  ℕ, zero, suc, ◌+◌, ◌≤◌, ◌<◌, max, ◌==◌, false, if◌then◌else◌, some, List, [], ◌∷◌, ◌≡◌, refl, ap,
  length, All, arith, ◌>>=◌, Bool-cases, inl, inr,
}
use coa.Fuzz.Floats.{Floats}
use coa.Fuzz.Schedule.{
  contains, push, measure_loop, measure_complexity, EquivalenceComplexity, complexity_of,
}

-- the sum of the weights of the nodes below `n` that are not in `seen`
left_over : (ℕ → ℕ) → ℕ → List ℕ → ℕ
left_over w zero seen = 0
left_over w (suc n) seen = left_over w n seen + (if contains n seen then 0 else w n)

above :
    (w : ℕ → ℕ) (n v : ℕ) (seen : List ℕ) → n ≤ v → left_over w n (v ∷ seen) ≡ left_over w n seen
unfolding left_over
above w zero v seen h = refl
above w (suc n) v seen h = ground (arith, above w n v seen)

-- Seeing a node takes its weight away.
left_over-cons :
    (w : ℕ → ℕ) (n v : ℕ) (seen : List ℕ)
    → v < n
    → contains v seen ≡ false
    → left_over w n (v ∷ seen) + w v ≡ left_over w n seen
unfolding left_over
left_over-cons w zero v seen h k = absurd (omega arith)
left_over-cons w (suc n) v seen h k = elim (Bool-cases (v == n)) [
  | inl here ↦ ground (arith, above w n v seen)
  | inr there ↦ ground (arith, left_over-cons w n v seen)
]

abbrev one : ℕ → ℕ
one v = 1

module _ (children : ℕ → List ℕ) (n : ℕ)
    (closed : (v : ℕ) → v < n → All (λ c. c < n) (children v)) where
  -- a node and its edges
  abbrev work : ℕ → ℕ
  work v = 1 + length (children v)

  -- the stack's nodes exist, and none is deeper than one below what has been visited
  abbrev IsStack : ℕ → List (ℕ × ℕ) → Type 0
  IsStack nodes = All (λ e. (e.0 < n) × (e.1 ≤ nodes + 1))

  push-IsStack :
      (level nodes : ℕ) (cs : List ℕ) (stack : List (ℕ × ℕ))
      → level ≤ nodes
      → All (λ c. c < n) cs
      → IsStack nodes stack
      → IsStack nodes (push children level cs stack)
  unfolding push
  push-IsStack level nodes [] stack h k s = s
  push-IsStack level nodes (c ∷ cs) stack h k s =
      push-IsStack level nodes cs ((c, level + 1) ∷ stack) h k.1 ((k.0, omega arith), s)

  length-push :
      (level : ℕ) (cs : List ℕ) (stack : List (ℕ × ℕ))
      → length (push children level cs stack) ≡ length cs + length stack
  unfolding push
  length-push level [] stack = omega arith
  length-push level (c ∷ cs) stack = omega (arith, length-push level cs ((c, level + 1) ∷ stack))

  IsStack-suc : (nodes : ℕ) (stack : List (ℕ × ℕ)) → IsStack nodes stack → IsStack (nodes + 1) stack
  IsStack-suc nodes [] h = tt
  IsStack-suc nodes (e ∷ stack) h = ((h.0.0, omega (arith, h.0.1)), IsStack-suc nodes stack h.1)

  -- what the loop returns, on the fuel that its work asks for
  abbrev Measured : ℕ → List (ℕ × ℕ) → List ℕ → ℕ → ℕ → Type 0
  Measured fuel stack seen depth nodes =
      (d : ℕ) × (m : ℕ) × (measure_loop children fuel stack seen depth nodes ≡ some (d, m))
      × (depth ≤ d)
      × (nodes ≤ m)
      × (d ≤ m)
      × (m ≤ nodes + left_over one n seen)

  measure_loop-Measured :
      (fuel : ℕ) (stack : List (ℕ × ℕ)) (seen : List ℕ) (depth nodes : ℕ)
      → IsStack nodes stack
      → depth ≤ nodes
      → left_over work n seen + length stack ≤ fuel
      → Measured fuel stack seen depth nodes
  unfolding measure_loop
  measure_loop-Measured fuel [] seen depth nodes s h k =
      (depth, nodes, refl, omega arith, omega arith, h, omega arith)
  measure_loop-Measured zero ((node, level) ∷ stack) seen depth nodes s h k = absurd (omega arith)
  measure_loop-Measured (suc fuel) ((node, level) ∷ stack) seen depth nodes s h k =
      elim (Bool-cases (contains node seen)) [
        | inl old ↦ rw old (measure_loop-Measured fuel stack seen depth nodes s.1 h (omega arith))
        | inr new ↦
            let counted = left_over-cons one n node seen s.0.0 new in
            let lighter = left_over-cons work n node seen s.0.0 new in
            let (d, m, e, hd, hm, hdm, top) =
              measure_loop-Measured fuel (push children level (children node) stack) (node ∷ seen)
                (max depth level) (nodes + 1)
                (push-IsStack level (nodes + 1) (children node) stack s.0.1 (closed node s.0.0)
                  (IsStack-suc nodes stack s.1))
                (omega (arith, s.0.1))
                (omega (arith, lighter, length-push level (children node) stack)) in
            (d, m, rw new e, omega arith, omega arith, hdm, omega (arith, counted))
      ]

  left_over-one : (k : ℕ) (seen : List ℕ) → left_over one k seen ≤ k
  unfolding left_over
  left_over-one zero seen = omega arith
  left_over-one (suc k) seen = ground (arith, left_over-one k seen)

-- One step for each node and each edge of the nodes below `n`, and one to begin.
unfoldable pub steps_for : (ℕ → List ℕ) → ℕ → ℕ
steps_for children zero = 1
steps_for children (suc n) = steps_for children n + (1 + length (children n))

steps_for-left_over :
    (children : ℕ → List ℕ) (n : ℕ)
    → steps_for children n ≡ left_over (λ v. 1 + length (children v)) n [] + 1
unfolding steps_for left_over
steps_for-left_over children zero = omega arith
steps_for-left_over children (suc n) = omega (arith, steps_for-left_over children n)

-- On a graph with n nodes, however its nodes are shared, the measure of the tree returns within one
-- step for each node and each of its children and one more; it counts at least one level, no more
-- levels than nodes, and at most n nodes.
pub measure_complexity-returns :
    (F : Floats) (children : ℕ → List ℕ) (n fuel root statements kinds : ℕ)
    → ((v : ℕ) → v < n → All (λ c. c < n) (children v))
    → root < n
    → steps_for children n ≤ fuel
    → (c : EquivalenceComplexity F) × (measure_complexity children F fuel root statements kinds
        ≡ some c)
      × (1 ≤ c.depth)
      × (c.depth ≤ c.nodes)
      × (c.nodes ≤ n)
unfolding measure_complexity
measure_complexity-returns F children n zero root statements kinds closed h k =
    absurd (omega (arith, steps_for-left_over children n))
measure_complexity-returns F children n (suc fuel) root statements kinds closed h k =
    let enough = steps_for-left_over children n in
    let lighter = left_over-cons (λ v. 1 + length (children v)) n root [] h refl in
    let counted = left_over-cons one n root [] h refl in
    let all_of = left_over-one children n closed n [] in
    let (d, m, e, hd, hm, hdm, top) =
      measure_loop-Measured children n closed fuel (push children 1 (children root) []) (root ∷ [])
        1 1 (push-IsStack children n closed 1 1 (children root) [] (omega arith) (closed root h) tt)
        (omega arith)
        (omega (arith, enough, lighter, length-push children n closed 1 (children root) [])) in
    (
      complexity_of F statements kinds (d, m),
      ap (λ o. o >>= λ r. some (complexity_of F statements kinds r)) e,
      hd,
      hdm,
      omega (arith, counted, all_of),
    )
