-- ===== src/Ir/Render/Operands.antt =====
-- eqgen/ir/render.py: in every text that is written the brackets match, and no operator outside
-- brackets stands in an operand, so no engine's precedence can regroup one.
use coa.Base.{
  ℕ, Bool, true, false, if◌then◌else◌, Option, none, some, List, [], ◌∷◌, ◌++◌, ◌>>=◌, ◌≡◌, refl,
  All, All-append, any,
}
use coa.Base.Text.{Text, codes, join}
use coa.Core.Types.{SqlType}
use coa.Ir.Expr.{
  ExpressionNode, Expressions, ComparisonOp, op_eq, op_ne, op_ge, BoolOperator, op_and, op_or,
  AggregateFunction, ValueCodec, WindowFunction, win_min, win_max, first_value, last_value,
  row_number, WindowFrameKind, rows, range, column_ref, int_literal, boolean_literal, raw_expr,
  typed_null, generated_predicate, comparison, bool_op, not_node, is_null_node, mod_node, case_node,
  aggregate_call, value_codec_round_trip, window_frame, window_call, nil, cons,
}
use coa.Ir.Render.{
  Spelling, is_atomic, comparison_sql, bool_sql, window_name, frame_name, column_sql, bracket,
  bracketed, key_clause, frame_clause, window_clauses,
}
use coa.Ir.Render.Brackets.{
  is_bracket, Balanced, Tight, Tight-Balanced, Balanced-append, Tight-append, no_bracket-Balanced,
  no_space-Tight, bracket-Tight, join-Balanced,
}

-- What an engine's own texts keep.
pub record KeepsBrackets (spelling : Spelling) : Type 0 where
  pub types : (t : SqlType) (s : Text) → spelling.type_sql t ≡ some s → Balanced s
  pub codecs :
      (c : ValueCodec) (inner s : Text)
      → Balanced inner
      → spelling.value_codec_sql c inner ≡ some s
      → Balanced s
  pub mods : (inner : Text) (m : ℕ) → Balanced inner → Tight (spelling.mod_sql inner m)
  pub aggregates :
      (f : AggregateFunction) (inner : Text)
      → Balanced inner
      → Balanced (spelling.aggregate_sql f inner)

abbrev pub IsName : Option Text → Type 0
IsName none = Unit
IsName (some alias) = Tight alias

unfoldable mutual
  -- The texts that a tree carries: names without a space outside brackets, so too a raw expression,
  -- and predicates whose brackets match.
  pub IsSpelt : ExpressionNode → Type 0
  IsSpelt (column_ref name t alias) = Tight name × IsName alias
  IsSpelt (int_literal n) = Unit
  IsSpelt (boolean_literal b) = Unit
  IsSpelt (raw_expr sql t) = Tight sql
  IsSpelt (typed_null t) = Unit
  IsSpelt (generated_predicate value) = Balanced value
  IsSpelt (comparison o l r) = IsSpelt l × IsSpelt r
  IsSpelt (bool_op o l r) = IsSpelt l × IsSpelt r
  IsSpelt (not_node p) = IsSpelt p
  IsSpelt (is_null_node p negated) = IsSpelt p
  IsSpelt (mod_node e m) = IsSpelt e
  IsSpelt (case_node c t e ty) = IsSpelt c × IsSpelt t × IsSpelt e
  IsSpelt (aggregate_call f a ty) = IsSpelt a
  IsSpelt (value_codec_round_trip c a ty) = IsSpelt a
  IsSpelt (window_frame kind) = Unit
  IsSpelt (window_call f a p o frame ty) = AreSpelt a × AreSpelt p × AreSpelt o

  pub AreSpelt : Expressions → Type 0
  AreSpelt nil = Unit
  AreSpelt (cons e es) = IsSpelt e × AreSpelt es

-- a property of what is returned, where something is
abbrev pub Given {ℓ} : {A : Type 0} → (A → Type ℓ) → Option A → Type ℓ
Given P none = Unit
Given P (some a) = P a

pub Given-bind :
    {A B : Type 0} (P : A → Type 0) (Q : B → Type 0) (o : Option A) (f : A → Option B)
    → Given P o
    → ((a : A) → P a → Given Q (f a))
    → Given Q (o >>= f)
Given-bind P Q none f h k = tt
Given-bind P Q (some a) f h k = k a h

-- a node that stands alone shows no space outside brackets
abbrev pub Written : ExpressionNode → Text → Type 0
Written e s = Balanced s × (is_atomic e ≡ true → Tight s)

pub bracketed-Tight : (e : ExpressionNode) (s : Text) → Written e s → Tight (bracketed e s)
unfolding bracketed
bracketed-Tight e s h = choose (is_atomic e) refl
  where
    choose : (b : Bool) → is_atomic e ≡ b → Tight (if b then s else bracket s)
    choose true k = h.1 k
    choose false k = bracket-Tight s h.0

pub compound : (e : ExpressionNode) (s : Text) → is_atomic e ≡ false → Balanced s → Written e s
compound e s h k = (k, λ t. absurd (clash (is_atomic e) h t))
  where
    clash : (b : Bool) → b ≡ false → b ≡ true → ⊥
    clash b h k = cc

pub single : (e : ExpressionNode) (s : Text) → Tight s → Written e s
single e s h = (Tight-Balanced h, λ _. h)

pub literal : (s : Text) → any is_bracket s ≡ false → Balanced s
literal s h = no_bracket-Balanced s h

pub column-Tight :
    (name : Text) (alias : Option Text) → Tight name → IsName alias → Tight (column_sql name alias)
unfolding column_sql
column-Tight name none h k = h
column-Tight name (some alias) h k =
    Tight-append (alias ++ codes ".") name
      (Tight-append alias (codes ".") k (no_space-Tight (codes ".") refl)) h

pub binary-Balanced :
    (s op t : Text)
    → Tight s
    → any is_bracket op ≡ false
    → Tight t
    → Balanced (s ++ codes " " ++ op ++ codes " " ++ t)
binary-Balanced s op t h o k =
    Balanced-append (s ++ codes " " ++ op ++ codes " ") t
      (Balanced-append (s ++ codes " " ++ op) (codes " ")
        (Balanced-append (s ++ codes " ") op
          (Balanced-append s (codes " ") (Tight-Balanced h) (literal (codes " ") refl))
          (literal op o))
        (literal (codes " ") refl))
      (Tight-Balanced k)

pub comparison-quiet : (o : ComparisonOp) → any is_bracket (comparison_sql o) ≡ false
comparison-quiet op_eq = refl
comparison-quiet op_ne = refl
comparison-quiet op_ge = refl

pub bool_op-quiet : (o : BoolOperator) → any is_bracket (bool_sql o) ≡ false
bool_op-quiet op_and = refl
bool_op-quiet op_or = refl

window-quiet : (f : WindowFunction) → any is_bracket (window_name f) ≡ false
window-quiet win_min = refl
window-quiet win_max = refl
window-quiet first_value = refl
window-quiet last_value = refl
window-quiet row_number = refl

pub case-Balanced :
    (c t e : Text)
    → Balanced c
    → Balanced t
    → Balanced e
    → Balanced
        (codes "CASE WHEN " ++ c ++ codes " THEN " ++ t ++ codes " ELSE " ++ e ++ codes " END")
case-Balanced c t e hc ht he =
    let one = Balanced-append (codes "CASE WHEN ") c (literal (codes "CASE WHEN ") refl) hc in
    let two =
      Balanced-append (codes "CASE WHEN " ++ c) (codes " THEN ") one
        (literal (codes " THEN ") refl) in
    let three = Balanced-append (codes "CASE WHEN " ++ c ++ codes " THEN ") t two ht in
    let four =
      Balanced-append (codes "CASE WHEN " ++ c ++ codes " THEN " ++ t) (codes " ELSE ") three
        (literal (codes " ELSE ") refl) in
    let five =
      Balanced-append (codes "CASE WHEN " ++ c ++ codes " THEN " ++ t ++ codes " ELSE ") e four
        he in
    Balanced-append (codes "CASE WHEN " ++ c ++ codes " THEN " ++ t ++ codes " ELSE " ++ e)
      (codes " END") five (literal (codes " END") refl)

key_clause-Balanced :
    (keyword : Text) (ts : List Text)
    → any is_bracket keyword ≡ false
    → All Balanced ts
    → All Balanced (key_clause keyword ts)
key_clause-Balanced keyword [] h k = tt
key_clause-Balanced keyword (t ∷ ts) h k = (
  Balanced-append keyword (join (codes ", ") (t ∷ ts)) (literal keyword h)
      (join-Balanced (codes ", ") (t ∷ ts) (literal (codes ", ") refl) k),
  tt,
)

abbrev bounds : Text
bounds = codes " BETWEEN UNBOUNDED PRECEDING AND UNBOUNDED FOLLOWING"

frame_clause-Balanced : (frame : Option WindowFrameKind) → All Balanced (frame_clause frame)
frame_clause-Balanced none = tt
frame_clause-Balanced (some rows) = (literal (frame_name rows ++ bounds) refl, tt)
frame_clause-Balanced (some range) = (literal (frame_name range ++ bounds) refl, tt)

pub window-Balanced :
    (f : WindowFunction) (arg p o : List Text) (frame : Option WindowFrameKind)
    → All Balanced arg
    → All Balanced p
    → All Balanced o
    → Balanced (
        window_name f
        ++ bracket (join (codes ", ") arg)
        ++ codes " OVER "
        ++ bracket (window_clauses p o frame))
unfolding window_clauses
window-Balanced f arg p o frame ha hp ho =
    let argument = join-Balanced (codes ", ") arg (literal (codes ", ") refl) ha in
    let clauses = join-Balanced (codes " ") _ (literal (codes " ") refl) (
      All-append Balanced (key_clause (codes "PARTITION BY ") p ++ key_clause (codes "ORDER BY ") o)
        (frame_clause frame)
        (All-append Balanced (key_clause (codes "PARTITION BY ") p)
          (key_clause (codes "ORDER BY ") o) (key_clause-Balanced (codes "PARTITION BY ") p refl hp)
          (key_clause-Balanced (codes "ORDER BY ") o refl ho))
        (frame_clause-Balanced frame)) in
    Balanced-append (window_name f ++ bracket (join (codes ", ") arg) ++ codes " OVER ") _
      (Balanced-append (window_name f ++ bracket (join (codes ", ") arg)) (codes " OVER ")
        (Balanced-append (window_name f) (bracket (join (codes ", ") arg))
          (literal (window_name f) (window-quiet f)) (Tight-Balanced (bracket-Tight _ argument)))
        (literal (codes " OVER ") refl))
      (Tight-Balanced (bracket-Tight _ clauses))
