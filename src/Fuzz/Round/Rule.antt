-- ===== src/Fuzz/Round/Rule.antt =====
-- eqgen/fuzz/round.py: induction on the query loop.
use coa.Base.{ℕ, suc, true, false, Option, List, [], ◌∷◌, ◌≡◌, ◌≢◌, refl, Bool-cases, inl, inr}
use coa.Base.Text.{Text, codes}
use coa.Fuzz.Verdict.{QueryComparison}
use coa.Fuzz.Journal.{began, ended}
use coa.Fuzz.Floats.{Floats}
use coa.Fuzz.Outcome.{Reply, answered, hung, died, Child, Printing, Loop, verdict}
use coa.Fuzz.Round.{query_loop, is_past, ended_loop, after, crashed}

-- What the four ways on from a query keep, the loop keeps.
pub loop_rule {ℓ} :
    {F : Floats} {Row : Type 0} (print : Printing F Row) (child : Child Row) (clock : ℕ → F.Float)
    (deadline : Option F.Float) (P : ℕ → List Text → Loop Row → Type ℓ)
    → ((i : ℕ) → P i [] (ended_loop (is_past F deadline (clock (suc i)))))
    → ((i : ℕ) (q : Text) (qs : List Text)
        → is_past F deadline (clock (suc i)) ≡ true
        → P i (q ∷ qs) (ended_loop true))
    → ((i : ℕ) (q : Text) (qs : List Text) (r : QueryComparison Row) (rest : Loop Row)
        → is_past F deadline (clock (suc i)) ≡ false
        → child.reply i q ≡ answered r
        → P (suc i) qs rest
        → P i (q ∷ qs) (after (began q) (ended (verdict print.sample r)) r rest))
    → ((i : ℕ) (q : Text) (qs : List Text) (reply : Reply Row) (note how : Text)
        → is_past F deadline (clock (suc i)) ≡ false
        → child.reply i q ≡ reply
        → ((r : QueryComparison Row) → reply ≢ answered r)
        → P i (q ∷ qs) (crashed q note how))
    → (i : ℕ) (qs : List Text) → P i qs (query_loop print child clock deadline i qs)
unfolding query_loop
loop_rule {F = F} print child clock deadline P over stop answer crash i [] = over i
loop_rule {F = F} {Row = Row} print child clock deadline P over stop answer crash i (q ∷ qs) =
    let rest = query_loop print child clock deadline (suc i) qs in
    let later = loop_rule print child clock deadline P over stop answer crash (suc i) qs in
    elim (Bool-cases (is_past F deadline (clock (suc i)))) [
      | inl late ↦ rw late (stop i q qs late)
      | inr early ↦ rw early (replied (child.reply i q) refl early rest later)
    ]
  where
    replied :
        (reply : Reply Row)
        → child.reply i q ≡ reply
        → is_past F deadline (clock (suc i)) ≡ false
        → (rest : Loop Row) → P (suc i) qs rest
        → P i (q ∷ qs) (elim reply [
          | answered r ↦ after (began q) (ended (verdict print.sample r)) r rest
          | hung note ↦ crashed q note (codes "CRASH: engine hung (")
          | died note ↦ crashed q note (codes "CRASH: engine died (")
        ])
    replied (answered r) e early rest later = answer i q qs r rest early e later
    replied (hung note) e early rest later =
        crash i q qs (hung note) note (codes "CRASH: engine hung (") early e (λ r h. cc)
    replied (died note) e early rest later =
        crash i q qs (died note) note (codes "CRASH: engine died (") early e (λ r h. cc)
