-- ===== src/Ir/Render/Brackets.antt =====
-- Reading SQL text from the left with a count of open brackets: what is balanced, and what shows no
-- space outside brackets.
use coa.Base.{
  ℕ, zero, suc, ◌==◌, Bool, true, false, ◌&&◌, ◌||◌, if◌then◌else◌, Option, none, some, List, [],
  ◌∷◌, ◌++◌, ◌≡◌, refl, sym, ap, ◌∙◌, append_assoc, append-nil, All, any, or_false, arith,
}
use coa.Base.Text.{Text, codes, join}
use coa.Base.Decimal.{str, str-IsDigit, IsDigit}

-- closing a bracket, if one is open
abbrev pub close : {A : Type 0} → ℕ → Option A → (ℕ → Option A) → Option A
close zero out next = out
close (suc d) out next = next d

abbrev pub is_zero : ℕ → Bool
is_zero zero = true
is_zero (suc d) = false

-- How many brackets are open at the end. `none` where one closes that was not opened and, if the
-- reading is strict, at a space outside brackets.
unfoldable pub walk : Bool → ℕ → Text → Option ℕ
walk strict d [] = some d
walk strict d (c ∷ s) =
    let deeper = walk strict (suc d) s in
    let same = walk strict d s in
    if c == b'('
    then deeper
    else if c == b')'
    then close d none (λ e. walk strict e s)
    else if strict && is_zero d && (c == b' ')
    then none
    else same

-- a text that leaves the reading of what follows as it is
abbrev pub Clear : Bool → ℕ → Text → Type 0
Clear strict d t = (rest : Text) → walk strict d (t ++ rest) ≡ walk strict d rest

-- each bracket is closed, and none closes that was open before
pub record Balanced (t : Text) : Type 0 where
  pub loose : (d : ℕ) → Clear false d t
  pub inner : (d : ℕ) → Clear true (suc d) t

-- balanced, and with no space outside brackets
pub record Tight (t : Text) : Type 0 where
  pub clear : (strict : Bool) (d : ℕ) → Clear strict d t

pub Tight-Balanced : {t : Text} → Tight t → Balanced t
Tight-Balanced h = record { loose = λ d. h.clear false d; inner = λ d. h.clear true (suc d) }

Clear-append :
    (strict : Bool) (d : ℕ) (s t : Text)
    → Clear strict d s
    → Clear strict d t
    → Clear strict d (s ++ t)
Clear-append strict d s t h k rest =
    ap (walk strict d) (append_assoc s t rest) ∙ h (t ++ rest) ∙ k rest

pub Balanced-append : (s t : Text) → Balanced s → Balanced t → Balanced (s ++ t)
Balanced-append s t h k = record {
  loose = λ d. Clear-append false d s t (h.loose d) (k.loose d);
  inner = λ d. Clear-append true (suc d) s t (h.inner d) (k.inner d);
}

pub Tight-append : (s t : Text) → Tight s → Tight t → Tight (s ++ t)
Tight-append s t h k = record {
  clear = λ strict d. Clear-append strict d s t (h.clear strict d) (k.clear strict d);
}

abbrev pub is_bracket : ℕ → Bool
is_bracket c = (c == b'(') || (c == b')')

abbrev pub is_bracket_or_space : ℕ → Bool
is_bracket_or_space c = is_bracket c || (c == b' ')

walk_step :
    (strict : Bool) (d c : ℕ) (s : Text)
    → is_bracket c ≡ false
    → (strict && is_zero d && (c == b' ')) ≡ false
    → walk strict d (c ∷ s) ≡ walk strict d s
unfolding walk
walk_step strict d c s h k =
    let (opens, closes) = or_false (c == b'(') (c == b')') h in rw (opens, closes, k) refl

any-false :
    (c : ℕ) (s : Text) (p : ℕ → Bool) → any p (c ∷ s) ≡ false → (p c ≡ false) × (any p s ≡ false)
any-false c s p h = or_false (p c) (any p s) h

quiet_loose : (d : ℕ) (s : Text) → any is_bracket s ≡ false → Clear false d s
quiet_loose d [] h rest = refl
quiet_loose d (c ∷ s) h rest =
    let (here, there) = any-false c s is_bracket h in
    walk_step false d c (s ++ rest) here refl ∙ quiet_loose d s there rest

quiet_inner : (d : ℕ) (s : Text) → any is_bracket s ≡ false → Clear true (suc d) s
quiet_inner d [] h rest = refl
quiet_inner d (c ∷ s) h rest =
    let (here, there) = any-false c s is_bracket h in
    walk_step true (suc d) c (s ++ rest) here refl ∙ quiet_inner d s there rest

pub no_bracket-Balanced : (s : Text) → any is_bracket s ≡ false → Balanced s
no_bracket-Balanced s h = record { loose = λ d. quiet_loose d s h; inner = λ d. quiet_inner d s h }

quiet : (s : Text) (strict : Bool) (d : ℕ) → any is_bracket_or_space s ≡ false → Clear strict d s
quiet [] strict d h rest = refl
quiet (c ∷ s) strict d h rest =
    let (here, there) = any-false c s is_bracket_or_space h in
    let (bracket, space) = or_false (is_bracket c) (c == b' ') here in
    walk_step strict d c (s ++ rest) bracket (rw space (no_matter strict (is_zero d)))
    ∙ quiet s strict d there rest
  where
    no_matter : (a b : Bool) → (a && b && false) ≡ false
    no_matter a b = ground arith

pub no_space-Tight : (s : Text) → any is_bracket_or_space s ≡ false → Tight s
no_space-Tight s h = record { clear = λ strict d. quiet s strict d h }

digit : (c : ℕ) → IsDigit c → is_bracket_or_space c ≡ false
digit c h = ground arith

pub str-Tight : (n : ℕ) → Tight (str n)
str-Tight n = no_space-Tight (str n) (none_of (str n) (str-IsDigit n))
  where
    none_of : (s : Text) → All IsDigit s → any is_bracket_or_space s ≡ false
    none_of [] h = refl
    none_of (c ∷ s) h = rw (digit c h.0) (none_of s h.1)

in_brackets :
    (t : Text) → Balanced t → (strict : Bool) (d : ℕ) → Clear strict d (codes "(" ++ t ++ codes ")")
unfolding walk
in_brackets t h false d rest =
    ap (walk false (suc d)) (append_assoc t (codes ")") rest) ∙ h.loose (suc d) (codes ")" ++ rest)
in_brackets t h true d rest =
    ap (walk true (suc d)) (append_assoc t (codes ")") rest) ∙ h.inner d (codes ")" ++ rest)

pub bracket-Tight : (t : Text) → Balanced t → Tight (codes "(" ++ t ++ codes ")")
bracket-Tight t h = record { clear = in_brackets t h }

pub join-Balanced :
    (sep : Text) (ts : List Text) → Balanced sep → All Balanced ts → Balanced (join sep ts)
unfolding join
join-Balanced sep [] h k = no_bracket-Balanced [] refl
join-Balanced sep (t ∷ []) h k = k.0
join-Balanced sep (t ∷ u ∷ ts) h k =
    Balanced-append (t ++ sep) (join sep (u ∷ ts)) (Balanced-append t sep k.0 h)
      (join-Balanced sep (u ∷ ts) h k.1)

-- What a tight text shows to a reader that starts outside brackets.
pub walk-Tight : (t : Text) → Tight t → walk true 0 t ≡ some 0
unfolding walk
walk-Tight t h = ap (walk true 0) (sym (append-nil t)) ∙ h.clear true 0 []

pub walk-Balanced : (t : Text) → Balanced t → walk false 0 t ≡ some 0
unfolding walk
walk-Balanced t h = ap (walk false 0) (sym (append-nil t)) ∙ h.loose 0 []
