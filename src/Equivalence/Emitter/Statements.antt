-- ===== src/Equivalence/Emitter/Statements.antt =====
-- eqgen/equivalence/emitter.py: `emit_equivalence` writes the statements of each object once, behind
-- those of the objects that it reads.
use coa.Base.{
  ℕ, zero, suc, ◌<◌, true, Option, none, some, List, [], ◌∷◌, ◌++◌, ◌≡◌, refl, sym, ap, ◌∙◌, ◌↔◌,
  append-nil, append_assoc, All, ◌>>=◌, Bool-cases, inl, inr,
}
use mathlib.Core.List.{flat_map}
use coa.Base.Text.{Text}
use coa.Ir.Render.{Spelling}
use coa.Equivalence.Ast.{EqNode}
use coa.Equivalence.Emitter.{all_of, node_statements}
use coa.Equivalence.Emitter.Walk.{contains, Walked, each, walk, walk_root, Emitted, Reaches}
use coa.Equivalence.Emitter.Steps.{order}
use coa.Equivalence.Emitter.Order.{walk_root-Emitted}

-- the objects of a run by their `id`: what each is, and the ids of its inputs
pub record Heap : Type 0 where
  pub content : ℕ → EqNode
  pub inputs : ℕ → List ℕ

-- `emit_equivalence`; an error in a statement is an error of the whole
unfoldable pub emit_equivalence : Spelling → Heap → ℕ → ℕ → Option (List Text)
unfolding walk_root node_statements
emit_equivalence spelling heap fuel root = do
  statements ← walk_root heap.inputs (λ n. node_statements spelling (heap.content n)) fuel root
  all_of statements

module _ {S : Type 0} (children : ℕ → List ℕ) (emit : ℕ → List S) where
  written : Walked ℕ → Walked S
  written state = (state.0, flat_map emit state.1)

  map_written : Option (Walked ℕ) → Option (Walked S)
  map_written o = o >>= λ state. some (written state)

  each-written :
      (step : ℕ → Walked S → Option (Walked S)) (step' : ℕ → Walked ℕ → Option (Walked ℕ))
      → ((n : ℕ) (state : Walked ℕ) → step n (written state) ≡ map_written (step' n state))
      → (ns : List ℕ) (state : Walked ℕ)
      → each step ns (written state) ≡ map_written (each step' ns state)
  unfolding each map_written
  each-written step step' h [] state = refl
  each-written step step' h (n ∷ ns) state =
      ap (λ o. o >>= λ next. each step ns next) (h n state)
      ∙ follow (step' n state) (each-written step step' h ns)
    where
      follow :
          (o : Option (Walked ℕ))
          → ((s : Walked ℕ) → each step ns (written s) ≡ map_written (each step' ns s))
          → (map_written o >>= λ next. each step ns next)
            ≡ map_written (o >>= λ next. each step' ns next)
      follow none ih = refl
      follow (some s) ih = ih s

  emitted_last :
      (out : List ℕ) (n : ℕ) → flat_map emit (out ++ n ∷ []) ≡ flat_map emit out ++ emit n
  unfolding flat_map
  emitted_last [] n = append-nil (emit n)
  emitted_last (m ∷ out) n =
      ap (λ r. emit m ++ r) (emitted_last out n)
      ∙ sym (append_assoc (emit m) (flat_map emit out) (emit n))

  -- The walk with any output follows the walk that collects ids.
  walk-written :
      (fuel n : ℕ) (state : Walked ℕ)
      → walk children emit fuel n (written state) ≡ map_written (walk children order fuel n state)
  unfolding walk written map_written
  walk-written zero n state = refl
  walk-written (suc fuel) n state = elim (Bool-cases (contains n state.0)) [
    | inl old ↦ rw old refl
    | inr new ↦ rw new (
        ap (λ o. o >>= λ done. some (done.0, done.1 ++ emit n))
          (each-written (walk children emit fuel) (walk children order fuel) (walk-written fuel)
            (children n) (n ∷ state.0, state.1))
        ∙ close (each (walk children order fuel) (children n) (n ∷ state.0, state.1)))
  ]
    where
      close :
          (o : Option (Walked ℕ))
          → (map_written o >>= λ done. some (done.0, done.1 ++ emit n))
            ≡ map_written (o >>= λ done. some (done.0, done.1 ++ n ∷ []))
      close none = refl
      close (some s) = ap (λ l. some (s.0, l)) (sym (emitted_last s.1 n))

  walk_root-written :
      (fuel root : ℕ)
      → walk_root children emit fuel root
        ≡ (walk_root children order fuel root >>= λ out. some (flat_map emit out))
  unfolding walk_root map_written written flat_map
  walk_root-written fuel root =
      ap (λ o. o >>= λ done. some done.1) (walk-written fuel root ([], []))
      ∙ close (walk children order fuel root ([], []))
    where
      close :
          (o : Option (Walked ℕ))
          → (map_written o >>= λ done. some done.1)
            ≡ ((o >>= λ done. some done.1) >>= λ out. some (flat_map emit out))
      close none = refl
      close (some s) = refl

-- Where each node is built from nodes of smaller ids and the fuel is above the root's id, the
-- emitter writes the statements of the nodes that the root is built from, itself included, and of
-- no others; each node's stand once, behind those of the nodes that it reads.
pub emit_equivalence-Emitted :
    (spelling : Spelling) (heap : Heap) (fuel root : ℕ)
    → ((n : ℕ) → All (λ c. c < n) (heap.inputs n))
    → root < fuel
    → (out : List ℕ) × (emit_equivalence spelling heap fuel root
        ≡ all_of (flat_map (λ n. node_statements spelling (heap.content n)) out))
      × Emitted heap.inputs out
      × ((x : ℕ) → (contains x out ≡ true) ↔ Reaches heap.inputs root x)
unfolding emit_equivalence
emit_equivalence-Emitted spelling heap fuel root acyclic h =
    let emit = λ (n : ℕ). node_statements spelling (heap.content n) in
    let (out, e, emitted, reached) = walk_root-Emitted heap.inputs acyclic fuel root h in
    (
      out,
      ap (λ o. o >>= all_of)
          (walk_root-written heap.inputs emit fuel root
            ∙ ap (λ o. o >>= λ l. some (flat_map emit l)) e),
      emitted,
      reached,
    )
