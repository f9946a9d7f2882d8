-- ===== src/Base/Strings.antt =====
-- Python's `str` methods that the program calls on texts: `splitlines`, `rstrip`, `startswith` and
-- `endswith`, and `"\n"`-terminated lines.
use Prim.Native.Nat.{ℕ}
use mathlib.Core.Path.{◌≡◌, refl, ap, ◌∙◌}
use mathlib.Core.Bool.{Bool, true, false, ◌&&◌, ◌||◌}
use mathlib.Core.List.{List, [], ◌∷◌, ◌++◌, append_assoc, append-nil}
use native.Mathlib.Omega.{arith}
use coa.Base.Tests.{leb, ◌==◌, if◌then◌else◌}
use coa.Base.Lists.{All, All-append, any}
use coa.Base.Text.{Text}

abbrev pub newline : Text
newline = 10 ∷ []

abbrev between : ℕ → ℕ → ℕ → Bool
between a b c = leb a c && leb c b

-- where `str.splitlines` breaks
unfoldable pub is_break : ℕ → Bool
is_break c = between 10 13 c || between 28 30 c || c == 133 || between 8232 8233 c

-- what `str.strip` takes for white space
unfoldable pub is_space : ℕ → Bool
is_space c =
    between 9 13 c
    || between 28 32 c
    || c == 133
    || c == 160
    || c == 5760
    || between 8192 8202 c
    || between 8232 8233 c
    || c == 8239
    || c == 8287
    || c == 12288

abbrev last_line : Text → List Text
last_line [] = []
last_line (c ∷ line) = (c ∷ line) ∷ []

-- The line read so far, and whether the last break was a carriage return, which a line feed joins.
lines_from : Bool → Text → Text → List Text
lines_from after_return line [] = last_line line
lines_from after_return line (c ∷ s) = elim (after_return && (c == 10)) [
  | true ↦ lines_from false line s
  | false ↦ elim (is_break c) [
    | true ↦ line ∷ lines_from (c == 13) [] s
    | false ↦ lines_from false (line ++ c ∷ []) s
  ]
]

unfoldable pub splitlines : Text → List Text
unfolding lines_from
splitlines s = lines_from false [] s

abbrev pub is_empty_text : Text → Bool
is_empty_text [] = true
is_empty_text (c ∷ s) = false

-- `s.rstrip(…)`, for the characters that the test takes
unfoldable pub rstrip_by : (ℕ → Bool) → Text → Text
rstrip_by p [] = []
rstrip_by p (c ∷ s) = let rest = rstrip_by p s in if p c && is_empty_text rest then [] else c ∷ rest

unfoldable pub starts_with : Text → Text → Bool
starts_with [] s = true
starts_with (p ∷ prefix) [] = false
starts_with (p ∷ prefix) (c ∷ s) = (p == c) && starts_with prefix s

-- `s.endswith(c)` for one character
unfoldable pub ends_with : ℕ → Text → Bool
ends_with c [] = false
ends_with c (d ∷ []) = d == c
ends_with c (d ∷ e ∷ s) = ends_with c (e ∷ s)

-- `not s.strip()`
unfoldable pub is_blank : Text → Bool
unfolding is_space
is_blank [] = true
is_blank (c ∷ s) = is_space c && is_blank s

-- every line with a line feed behind it
unfoldable pub terminated : List Text → Text
terminated [] = []
terminated (line ∷ lines) = line ++ newline ++ terminated lines

abbrev pub IsPlain : Text → Type 0
IsPlain = All (λ c. is_break c ≡ false)

lines_step :
    (line : Text) (c : ℕ) (s : Text)
    → is_break c ≡ false
    → lines_from false line (c ∷ s) ≡ lines_from false (line ++ c ∷ []) s
unfolding lines_from
lines_step line c s h = rw (lines_from, h) refl

lines_from-plain :
    (line s rest : Text)
    → IsPlain s
    → lines_from false line (s ++ newline ++ rest) ≡ (line ++ s) ∷ lines_from false [] rest
unfolding lines_from is_break
lines_from-plain line [] rest h = rw append-nil refl
lines_from-plain line (c ∷ s) rest h =
    lines_step line c (s ++ newline ++ rest) h.0
    ∙ lines_from-plain (line ++ c ∷ []) s rest h.1
    ∙ ap (λ l. l ∷ lines_from false [] rest) (append_assoc line (c ∷ []) s)

-- Lines without a break among them are read back from their terminated text.
pub splitlines-terminated :
    (lines : List Text) → All IsPlain lines → splitlines (terminated lines) ≡ lines
unfolding splitlines terminated
splitlines-terminated [] h = refl
splitlines-terminated (line ∷ lines) h =
    lines_from-plain [] line (terminated lines) h.0
    ∙ ap (λ r. line ∷ r) (splitlines-terminated lines h.1)

last_line-IsPlain : (line : Text) → IsPlain line → All IsPlain (last_line line)
last_line-IsPlain [] h = tt
last_line-IsPlain (c ∷ line) h = (h, tt)

lines_from-IsPlain : (b : Bool) (line s : Text) → IsPlain line → All IsPlain (lines_from b line s)
unfolding lines_from
lines_from-IsPlain b line [] h = last_line-IsPlain line h
lines_from-IsPlain b line (c ∷ s) h =
    joined (b && (c == 10)) (lines_from-IsPlain false line s h)
      (lines_from-IsPlain (c == 13) [] s tt)
      (λ e. lines_from-IsPlain false (line ++ c ∷ []) s (All-append _ line (c ∷ []) h (e, tt)))
  where
    broken :
        (d : Bool)
        → is_break c ≡ d
        → All IsPlain (lines_from (c == 13) [] s)
        → (is_break c ≡ false → All IsPlain (lines_from false (line ++ c ∷ []) s))
        → All IsPlain (elim d [
          | true ↦ line ∷ lines_from (c == 13) [] s
          | false ↦ lines_from false (line ++ c ∷ []) s
        ])
    broken true e fresh longer = (h, fresh)
    broken false e fresh longer = longer e

    joined :
        (d : Bool)
        → All IsPlain (lines_from false line s)
        → All IsPlain (lines_from (c == 13) [] s)
        → (is_break c ≡ false → All IsPlain (lines_from false (line ++ c ∷ []) s))
        → All IsPlain (elim d [
          | true ↦ lines_from false line s
          | false ↦ elim (is_break c) [
            | true ↦ line ∷ lines_from (c == 13) [] s
            | false ↦ lines_from false (line ++ c ∷ []) s
          ]
        ])
    joined true same fresh longer = same
    joined false same fresh longer = broken (is_break c) refl fresh longer

-- No line of a text holds a break.
pub splitlines-IsPlain : (s : Text) → All IsPlain (splitlines s)
unfolding splitlines
splitlines-IsPlain s = lines_from-IsPlain false [] s tt

pub no_break-IsPlain : (s : Text) → any is_break s ≡ false → IsPlain s
no_break-IsPlain [] h = tt
no_break-IsPlain (c ∷ s) h = (first (is_break c) h, no_break-IsPlain s (rest (is_break c) h))
  where
    first : (b : Bool) → b || any is_break s ≡ false → b ≡ false
    first b h = ground arith

    rest : (b : Bool) → b || any is_break s ≡ false → any is_break s ≡ false
    rest b h = ground arith
