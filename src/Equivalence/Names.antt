-- ===== src/Equivalence/Names.antt =====
-- The names that a run hands out: no two of them are the same, whatever their prefixes.
use coa.Base.{
  ℕ, ◌+◌, ◌≤◌, ◌<◌, Bool, true, false, if◌then◌else◌, List, [], ◌∷◌, ◌++◌, ◌≡◌, ◌≢◌, refl, sym, ap,
  ◌∙◌, subst, arith, All, All-map,
}
use coa.Base.Text.{Text, text_eq, text_eq_iff}
use coa.Base.Decimal.{str, str_inj, IsDigit, str-IsDigit}
use coa.Equivalence.Context.{Counters, get_count, set_count, generate_object_name}
use coa.Sql.Rows.{cons_inj, Distinct}

abbrev pub object_name : Text → ℕ → Text
object_name prefix n = prefix ++ b'_' ∷ str n

-- a run of calls, one for each prefix
unfoldable pub generate_names : List Text → Counters → List Text
unfolding generate_object_name
generate_names [] counters = []
generate_names (prefix ∷ prefixes) counters =
    let (counters', name) = generate_object_name prefix counters in
    name ∷ generate_names prefixes counters'

underscore_no_digit : (p : Text) (n : ℕ) → All IsDigit (p ++ b'_' ∷ str n) → ⊥
underscore_no_digit [] n h = omega (arith, h.0.1)
underscore_no_digit (x ∷ p) n h = underscore_no_digit p n h.1

pub object_name_inj : (p q : Text) (m n : ℕ) → object_name p m ≡ object_name q n → (p ≡ q) × (m ≡ n)
object_name_inj [] [] m n e = (refl, str_inj m n (cons_inj e).1)
object_name_inj [] (y ∷ q) m n e =
    absurd (underscore_no_digit q n (subst (All IsDigit) (cons_inj e).1 (str-IsDigit m)))
object_name_inj (x ∷ p) [] m n e =
    absurd (underscore_no_digit p m (subst (All IsDigit) (sym (cons_inj e).1) (str-IsDigit n)))
object_name_inj (x ∷ p) (y ∷ q) m n e =
    let (h, t) = cons_inj e in let (pq, mn) = object_name_inj p q m n t in (rw (h, pq) refl, mn)

-- every name of a list bears a number that its prefix's counter has not reached
abbrev Later : Counters → Text → Type 0
Later counters name = (p : Text) (n : ℕ) → name ≡ object_name p n → get_count p counters < n

false_is_not_true : false ≢ true
false_is_not_true h = cc

once : (b : Bool) (n m g : ℕ) → (if b then n else g) ≡ (if b then n else (if b then m else g))
once true n m g = refl
once false n m g = refl

swapped :
    (a b : Bool) (n m g : ℕ)
    → (a ≡ true → b ≡ true → ⊥)
    → (if a then m else (if b then n else g)) ≡ (if b then n else (if a then m else g))
swapped true true n m g h = absurd (h refl refl)
swapped true false n m g h = refl
swapped false b n m g h = refl

get-set :
    (k j : Text) (n : ℕ) (d : Counters)
    → get_count j (set_count k n d) ≡ (if text_eq k j then n else get_count j d)
unfolding get_count set_count
get-set k j n [] = refl
get-set k j n ((i, m) ∷ d) = step (text_eq i k) refl (get-set k j n d)
  where
    step :
        (b : Bool)
        → text_eq i k ≡ b
        → get_count j (set_count k n d) ≡ (if text_eq k j then n else get_count j d)
        → get_count j (if b then (i, n) ∷ d else (i, m) ∷ set_count k n d)
          ≡ (if text_eq k j then n else (if text_eq i j then m else get_count j d))
    step true e h =
        rw (ap (λ x. text_eq x j) ((text_eq_iff i k).0 e)) (once (text_eq k j) n m (get_count j d))
    step false e h = rw h (
        swapped (text_eq i j) (text_eq k j) n m (get_count j d) (λ a b.
          false_is_not_true
            (sym e ∙ (text_eq_iff i k).1 ((text_eq_iff i j).0 a ∙ sym ((text_eq_iff k j).0 b)))))

-- Raising one counter leaves no counter lower.
pub raised_count :
    (k j : Text) (d : Counters) → get_count j d ≤ get_count j (set_count k (get_count k d + 1) d)
raised_count k j d = rw (get-set k j (get_count k d + 1) d) (step (text_eq k j) refl)
  where
    step :
        (b : Bool)
        → text_eq k j ≡ b
        → get_count j d ≤ (if b then get_count k d + 1 else get_count j d)
    step true e = omega (arith, ap (λ i. get_count i d) ((text_eq_iff k j).0 e))
    step false e = omega arith

pub this_count : (k : Text) (n : ℕ) (d : Counters) → get_count k (set_count k n d) ≡ n
this_count k n d =
    get-set k k n d ∙ ap (λ b. if b then n else get_count k d) ((text_eq_iff k k).1 refl)

generate_names-Later : (ps : List Text) (c : Counters) → All (Later c) (generate_names ps c)
unfolding generate_names generate_object_name
generate_names-Later [] c = tt
generate_names-Later (k ∷ ps) c = (
  here,
  All-map (Later (set_count k (get_count k c + 1) c)) (Later c) _
      (λ name h p n e. omega (arith, h p n e, raised_count k p c))
      (generate_names-Later ps (set_count k (get_count k c + 1) c)),
)
  where
    here : Later c (object_name k (get_count k c + 1))
    here p n e =
        let (kp, mn) = object_name_inj k p (get_count k c + 1) n e in
        omega (arith, ap (λ i. get_count i c) kp, mn)

-- The names that calls of `generate_object_name` return one after another, from any counters, are
-- all different, whatever the prefixes are, also where one prefix ends like a name.
pub generate_names-Distinct : (ps : List Text) (c : Counters) → Distinct (generate_names ps c)
unfolding generate_names generate_object_name
generate_names-Distinct [] c = tt
generate_names-Distinct (k ∷ ps) c = (
  All-map (Later (set_count k (get_count k c + 1) c)) _ _
      (λ name h e. below (h k (get_count k c + 1) e) (this_count k (get_count k c + 1) c))
      (generate_names-Later ps (set_count k (get_count k c + 1) c)),
  generate_names-Distinct ps (set_count k (get_count k c + 1) c),
)
  where
    below : {a b : ℕ} → a < b → a ≡ b → ⊥
    below h e = omega (arith, h, e)
