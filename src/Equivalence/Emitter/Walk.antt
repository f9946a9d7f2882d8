-- ===== src/Equivalence/Emitter/Walk.antt =====
-- eqgen/equivalence/emitter.py: the walk of `emit_equivalence`, over objects known by their `id`. A
-- node can feed several parents; its inputs exist before it, so their ids are taken to be smaller.
use coa.Base.{
  ℕ, zero, suc, ◌==◌, Bool, true, false, if◌then◌else◌, Option, none, some, List, [], ◌∷◌, ◌++◌,
  ◌≡◌, any, All, ◌>>=◌,
}

abbrev pub contains : ℕ → List ℕ → Bool
contains n seen = any (λ m. m == n) seen

-- `seen` and what has been emitted
abbrev pub Walked : Type 0 → Type 0
Walked S = List ℕ × List S

unfoldable pub each : {W : Type 0} → (ℕ → W → Option W) → List ℕ → W → Option W
each step [] state = some state
each step (n ∷ ns) state = step n state >>= λ next. each step ns next

module _ {S : Type 0} (children : ℕ → List ℕ) (emit : ℕ → List S) where
  -- `walk`, on fuel; `none` means that it ran out
  unfoldable pub walk : ℕ → ℕ → Walked S → Option (Walked S)
  unfolding each
  walk zero n state = none
  walk (suc fuel) n (seen, out) =
      let inputs = each (walk fuel) (children n) (n ∷ seen, out) in
      if contains n seen
      then some (seen, out)
      else inputs >>= λ done. some (done.0, done.1 ++ emit n)

  -- what `emit_equivalence` has collected when the walk of the root ends
  unfoldable pub walk_root : ℕ → ℕ → Option (List S)
  unfolding walk
  walk_root fuel root = walk fuel root ([], []) >>= λ done. some done.1

-- Ids in an order in which each stands once, behind its inputs.
pub data Emitted (children : ℕ → List ℕ) : List ℕ → Type 0 where
  nothing : Emitted children []
  next :
      {out : List ℕ}
      → (n : ℕ) → Emitted children out
      → contains n out ≡ false
      → All (λ c. contains c out ≡ true) (children n)
      → Emitted children (out ++ n ∷ [])

-- what a node is built from, itself included
pub data Reaches (children : ℕ → List ℕ) : ℕ → ℕ → Type 0 where
  here : {n : ℕ} → Reaches children n n
  input : {n c m : ℕ} → contains c (children n) ≡ true → Reaches children c m → Reaches children n m
