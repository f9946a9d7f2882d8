-- ===== src/Equivalence/Emitter/Order.antt =====
-- eqgen/equivalence/emitter.py: the order of the walk of `emit_equivalence`.
use coa.Base.{
  ℕ, zero, suc, ◌<◌, ◌≤◌, true, false, some, List, [], ◌∷◌, ◌++◌, ◌≡◌, refl, sym, ap, ◌⊎◌, inl, inr,
  ◌↔◌, subst, All, ◌>>=◌, Bool-cases, arith,
}
use mathlib.Core.Logic.{⊎_elim}
use coa.Equivalence.Emitter.Walk.{
  contains, Walked, each, walk, walk_root, Emitted, nothing, next, Reaches, here, input,
}
use coa.Equivalence.Emitter.Steps.{
  contains-head, contains-tail, contains-cons, contains-append, true-false, order, Stepped, Ready,
  stay, Ready-after, both, weaken, lower,
}

module _ (children : ℕ → List ℕ) (acyclic : (n : ℕ) → All (λ c. c < n) (children n)) where
  -- a node of a list that a node is built from
  From : List ℕ → ℕ → Type 0
  From cs x = (c : ℕ) × (contains c cs ≡ true) × Reaches children c x

  -- what the walk of a node returns
  WalkedTo : ℕ → ℕ → Walked ℕ → Type 0
  WalkedTo fuel n before =
      (after : Walked ℕ) × (walk children order fuel n before ≡ some after)
      × Stepped children acyclic (Reaches children n) before after
      × (contains n after.1 ≡ true)

  walk_inputs :
      (fuel n : ℕ)
      → n ≤ fuel
      → ((c : ℕ) (state : Walked ℕ)
          → c < fuel
          → Ready children acyclic (suc c) state
          → WalkedTo fuel c state)
      → (cs : List ℕ) (before : Walked ℕ) → All (λ c. c < n) cs
      → Ready children acyclic n before
      → (after : Walked ℕ) × (each (walk children order fuel) cs before ≡ some after)
        × Stepped children acyclic (From cs) before after
        × All (λ c. contains c after.1 ≡ true) cs
  unfolding each From WalkedTo
  walk_inputs fuel n k ih [] before h r =
      (before, refl, stay children acyclic (From []) n before r, tt)
  walk_inputs fuel n k ih (c ∷ cs) before h r =
      let (middle, e, s, found) =
        ih c before (omega (arith, h.0)) (lower children acyclic n c before h.0 r) in
      let (after, e', t, rest) =
        walk_inputs fuel n k ih cs middle h.1
          (Ready-after children acyclic (Reaches children c) n before middle r s) in
      (
        after,
        rw e e',
        weaken children acyclic (λ x. Reaches children c x ⊎ From cs x) (From (c ∷ cs)) before after
            (λ x.
              ⊎_elim (λ p. (c, contains-head c cs, p))
                (λ q. (q.0, contains-tail q.0 c cs q.1, q.2)))
            (both children acyclic (Reaches children c) (From cs) before middle after s t),
        (t.keeps c found, rest),
      )

  last_or :
      (x n : ℕ) (out : List ℕ)
      → contains x (out ++ n ∷ []) ≡ true
      → (contains x out ≡ true) ⊎ (n ≡ x)
  last_or x n out h = elim (Bool-cases (contains x out)) [
    | inl k ↦ inl k
    | inr k ↦ elim (contains-cons x n [] (only k)) [ inl e ↦ inr e | inr f ↦ inl (ground arith) ]
  ]
    where
      only : contains x out ≡ false → contains x (n ∷ []) ≡ true
      only k = ground (arith, contains-append x out (n ∷ []))

  kept : (x n : ℕ) (out : List ℕ) → contains x out ≡ true → contains x (out ++ n ∷ []) ≡ true
  kept x n out h = ground (arith, contains-append x out (n ∷ []))

  last : (n : ℕ) (out : List ℕ) → contains n (out ++ n ∷ []) ≡ true
  last n out = ground (arith, contains-append n out (n ∷ []), contains-head n [])

  -- the end of the walk of a node that was not seen
  finish :
      (n : ℕ) (before done : Walked ℕ)
      → contains n before.0 ≡ false
      → Ready children acyclic (suc n) before
      → Stepped children acyclic (From (children n)) (n ∷ before.0, before.1) done
      → All (λ c. contains c done.1 ≡ true) (children n)
      → Stepped children acyclic (Reaches children n) before (done.0, done.1 ++ n ∷ [])
  unfolding From
  finish n before done new r s found = record {
    emitted = next n s.emitted absent found;
    keeps = λ x h. kept x n done.1 (s.keeps x h);
    inside = λ x h. elim (last_or x n done.1 h) [
      | inl k ↦ s.inside x k
      | inr e ↦ subst (λ y. contains y done.0 ≡ true) e (s.grows n (contains-head n before.0))
    ];
    grows = λ x h. s.grows x (contains-tail x n before.0 h);
    fresh = λ x h. elim (last_or x n done.1 h) [
      | inl k ↦ elim (s.fresh x k) [
        | inl old ↦ inl old
        | inr p ↦ inr (unseen x p.0, input p.1.1 p.1.2)
      ]
      | inr e ↦
          inr (subst (λ y. (contains y before.0 ≡ false) × Reaches children n y) e (new, here))
    ];
    settled = λ x h. elim (s.settled x h) [
      | inl out ↦ inl (kept x n done.1 out)
      | inr seen ↦ elim (contains-cons x n before.0 seen) [
        | inl e ↦ inl (subst (λ y. contains y (done.1 ++ n ∷ []) ≡ true) e (last n done.1))
        | inr old ↦ inr old
      ]
    ];
  }
    where
      unseen : (x : ℕ) → contains x (n ∷ before.0) ≡ false → contains x before.0 ≡ false
      unseen x h = elim (Bool-cases (contains x before.0)) [
        | inl k ↦ absurd (true-false (contains-tail x n before.0 k) h)
        | inr k ↦ k
      ]

      absent : contains n done.1 ≡ false
      absent = elim (Bool-cases (contains n done.1)) [
        | inr k ↦ k
        | inl k ↦ elim (s.fresh n k) [
          | inl old ↦ absurd (true-false (r.inside n old) new)
          | inr p ↦ absurd (true-false (contains-head n before.0) p.0)
        ]
      ]

  walk_node :
      (fuel n : ℕ) (before : Walked ℕ)
      → n < fuel
      → Ready children acyclic (suc n) before
      → WalkedTo fuel n before
  unfolding WalkedTo walk
  walk_node zero n before h r = absurd (omega arith)
  walk_node (suc fuel) n before h r = elim (Bool-cases (contains n before.0)) [
    | inl old ↦
        (before, rw old refl, stay children acyclic (Reaches children n) (suc n) before r, out old)
    | inr new ↦
        let (done, e, s, found) =
          walk_inputs fuel n (omega arith) (walk_node fuel) (children n) (n ∷ before.0, before.1)
            (acyclic n) (opened new) in
        (
          (done.0, done.1 ++ n ∷ []),
          rw (new, e) refl,
          finish n before done new r s found,
          last n done.1,
        )
  ]
    where
      out : contains n before.0 ≡ true → contains n before.1 ≡ true
      out old = elim (r.above n old) [ inl k ↦ k | inr far ↦ absurd (omega arith) ]

      opened : contains n before.0 ≡ false → Ready children acyclic n (n ∷ before.0, before.1)
      opened new = record {
        emitted = r.emitted;
        inside = λ x h. contains-tail x n before.0 (r.inside x h);
        above = λ x h. elim (contains-cons x n before.0 h) [
          | inl e ↦ inr (omega (arith, e))
          | inr old ↦ elim (r.above x old) [ inl k ↦ inl k | inr far ↦ inr (omega arith) ]
        ];
      }

  All-contains : (P : ℕ → Type 0) (cs : List ℕ) (c : ℕ) → All P cs → contains c cs ≡ true → P c
  All-contains P [] c h k = absurd (true-false k refl)
  All-contains P (d ∷ cs) c h k = elim (contains-cons c d cs k) [
    | inl e ↦ subst P e h.0
    | inr rest ↦ All-contains P cs c h.1 rest
  ]

  Emitted-inputs :
      {out : List ℕ}
      → Emitted children out
      → (n : ℕ) → contains n out ≡ true
      → (c : ℕ) → contains c (children n) ≡ true
      → contains c out ≡ true
  Emitted-inputs nothing n h c k = absurd (true-false h refl)
  Emitted-inputs (next {out} m e new found) n h c k = elim (last_or n m out h) [
    | inl old ↦ kept c m out (Emitted-inputs e n old c k)
    | inr this ↦ kept c m out (
        All-contains (λ d. contains d out ≡ true) (children m) c found
          (subst (λ y. contains c (children y) ≡ true) (sym this) k))
  ]

  reached :
      (n x : ℕ) (out : List ℕ)
      → Emitted children out
      → contains n out ≡ true
      → Reaches children n x
      → contains x out ≡ true
  reached n x out e h here = h
  reached n x out e h (input {c = c} k r) = reached c x out e (Emitted-inputs e n h c k) r

  -- The order of the statements.
  pub walk_root-Emitted :
      (fuel root : ℕ)
      → root < fuel
      → (out : List ℕ) × (walk_root children (λ n. n ∷ []) fuel root ≡ some out)
        × Emitted children out
        × ((x : ℕ) → (contains x out ≡ true) ↔ Reaches children root x)
  unfolding walk_root WalkedTo
  walk_root-Emitted fuel root h =
      let start : Ready children acyclic (suc root) ([], []) = record {
        emitted = nothing;
        inside = λ x k. k;
        above = λ x k. inl k;
      } in
      let (after, e, s, found) = walk_node fuel root ([], []) h start in
      (
        after.1,
        ap (λ o. o >>= λ done. some done.1) e,
        s.emitted,
        λ x. (
          λ k. elim (s.fresh x k) [
            | inl none_yet ↦ absurd (true-false none_yet refl)
            | inr p ↦ p.1
          ],
          reached root x after.1 s.emitted found,
        ),
      )
