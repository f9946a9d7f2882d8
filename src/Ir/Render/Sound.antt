-- ===== src/Ir/Render/Sound.antt =====
-- eqgen/ir/render.py: every text that `expr` returns.
use coa.Base.{
  Bool, true, false, if◌then◌else◌, Option, none, some, [], ◌++◌, ◌>>=◌, ◌≡◌, refl, subst, All,
}
use mathlib.Core.Option.{some-injective}
use coa.Base.Text.{Text, codes}
use coa.Base.Decimal.{str}
use coa.Core.Types.{SqlType}
use coa.Ir.Expr.{
  ExpressionNode, Expressions, ValueCodec, column_ref, int_literal, boolean_literal, raw_expr,
  typed_null, generated_predicate, comparison, bool_op, not_node, is_null_node, mod_node, case_node,
  aggregate_call, value_codec_round_trip, window_frame, window_call, nil, cons,
}
use coa.Ir.Render.{
  Spelling, is_atomic, comparison_sql, bool_sql, column_sql, bracket, bracketed, typed_null_sql,
  expr, exprs,
}
use coa.Ir.Render.Brackets.{
  walk, Balanced, Tight, Tight-Balanced, Tight-append, Balanced-append, no_space-Tight, str-Tight,
  bracket-Tight, walk-Tight, walk-Balanced,
}
use coa.Ir.Render.Operands.{
  KeepsBrackets, IsSpelt, AreSpelt, Given, Given-bind, Written, bracketed-Tight, compound, single,
  literal, column-Tight, binary-Balanced, comparison-quiet, bool_op-quiet, case-Balanced,
  window-Balanced,
}

module _ (spelling : Spelling) (keeps : KeepsBrackets spelling) where
  typed_null-Tight : (t : SqlType) → Given Tight (typed_null_sql spelling t)
  unfolding typed_null_sql
  typed_null-Tight t = named (spelling.type_sql t) (λ s e. keeps.types t s e)
    where
      named :
          (o : Option Text)
          → ((s : Text) → o ≡ some s → Balanced s)
          → Given Tight (o >>= λ name. some (codes "CAST(NULL AS " ++ name ++ codes ")"))
      named none h = tt
      named (some s) h =
          Tight-append (codes "CAST") (bracket (codes "NULL AS " ++ s))
            (no_space-Tight (codes "CAST") refl)
            (bracket-Tight (codes "NULL AS " ++ s)
              (Balanced-append (codes "NULL AS ") s (literal (codes "NULL AS ") refl) (h s refl)))

  null_Written : (t : SqlType) (o : Option Text) → Given Tight o → Given (Written (typed_null t)) o
  null_Written t none h = tt
  null_Written t (some s) h = single (typed_null t) s h

  codec_Written :
      (c : ValueCodec) (a : ExpressionNode) (ty : SqlType) (inner : Text)
      → Balanced inner
      → (o : Option Text) → spelling.value_codec_sql c inner ≡ o
      → Given (Written (value_codec_round_trip c a ty)) o
  unfolding is_atomic
  codec_Written c a ty inner h none e = tt
  codec_Written c a ty inner h (some s) e =
      compound (value_codec_round_trip c a ty) s refl (keeps.codecs c inner s h e)

  tested :
      (s : Text) (negated : Bool)
      → Balanced s
      → Balanced (s ++ codes " IS " ++ (if negated then codes "NOT " else []) ++ codes "NULL")
  tested s negated h =
      Balanced-append (s ++ codes " IS " ++ (if negated then codes "NOT " else [])) (codes "NULL")
        (Balanced-append (s ++ codes " IS ") (if negated then codes "NOT " else [])
          (Balanced-append s (codes " IS ") h (literal (codes " IS ") refl)) (negation negated))
        (literal (codes "NULL") refl)
    where
      negation : (b : Bool) → Balanced (if b then codes "NOT " else [])
      negation true = literal (codes "NOT ") refl
      negation false = literal [] refl

  mutual
    unfolding expr exprs is_atomic IsSpelt AreSpelt

    expr-Written : (e : ExpressionNode) → IsSpelt e → Given (Written e) (expr spelling e)
    expr-Written (column_ref name t alias) h =
        single (column_ref name t alias) (column_sql name alias) (column-Tight name alias h.0 h.1)
    expr-Written (int_literal n) h = single (int_literal n) (str n) (str-Tight n)
    expr-Written (boolean_literal true) h =
        single (boolean_literal true) (codes "TRUE") (no_space-Tight (codes "TRUE") refl)
    expr-Written (boolean_literal false) h =
        single (boolean_literal false) (codes "FALSE") (no_space-Tight (codes "FALSE") refl)
    expr-Written (raw_expr sql t) h = single (raw_expr sql t) sql h
    expr-Written (typed_null t) h = null_Written t (typed_null_sql spelling t) (typed_null-Tight t)
    expr-Written (generated_predicate value) h =
        single (generated_predicate value) (bracket value) (bracket-Tight value h)
    expr-Written (comparison o l r) h =
        Given-bind (Written l) (Written (comparison o l r)) (expr spelling l) _ (expr-Written l h.0)
          λ s hs.
            Given-bind (Written r) (Written (comparison o l r)) (expr spelling r) _
              (expr-Written r h.1)
              λ t ht. compound (comparison o l r) _ refl (
                binary-Balanced (bracketed l s) (comparison_sql o) (bracketed r t)
                  (bracketed-Tight l s hs) (comparison-quiet o) (bracketed-Tight r t ht))
    expr-Written (bool_op o l r) h =
        Given-bind (Written l) (Written (bool_op o l r)) (expr spelling l) _ (expr-Written l h.0)
          λ s hs.
            Given-bind (Written r) (Written (bool_op o l r)) (expr spelling r) _
              (expr-Written r h.1)
              λ t ht. compound (bool_op o l r) _ refl (
                binary-Balanced (bracketed l s) (bool_sql o) (bracketed r t)
                  (bracketed-Tight l s hs) (bool_op-quiet o) (bracketed-Tight r t ht))
    expr-Written (not_node p) h =
        Given-bind (Written p) (Written (not_node p)) (expr spelling p) _ (expr-Written p h) λ s hs.
          compound (not_node p) _ refl (
            Balanced-append (codes "NOT ") (bracketed p s) (literal (codes "NOT ") refl)
              (Tight-Balanced (bracketed-Tight p s hs)))
    expr-Written (is_null_node p negated) h =
        Given-bind (Written p) (Written (is_null_node p negated)) (expr spelling p) _
          (expr-Written p h)
          λ s hs.
            compound (is_null_node p negated) _ refl
              (tested (bracketed p s) negated (Tight-Balanced (bracketed-Tight p s hs)))
    expr-Written (mod_node e m) h =
        Given-bind (Written e) (Written (mod_node e m)) (expr spelling e) _ (expr-Written e h)
          λ s hs. single (mod_node e m) (spelling.mod_sql s m) (keeps.mods s m hs.0)
    expr-Written (case_node c t e ty) h =
        Given-bind (Written c) (Written (case_node c t e ty)) (expr spelling c) _
          (expr-Written c h.0)
          λ s hs.
            Given-bind (Written t) (Written (case_node c t e ty)) (expr spelling t) _
              (expr-Written t h.1)
              λ u hu.
                Given-bind (Written e) (Written (case_node c t e ty)) (expr spelling e) _
                  (expr-Written e h.2)
                  λ v hv. compound (case_node c t e ty) _ refl (case-Balanced s u v hs.0 hu.0 hv.0)
    expr-Written (aggregate_call f a ty) h =
        Given-bind (Written a) (Written (aggregate_call f a ty)) (expr spelling a) _
          (expr-Written a h)
          λ s hs. compound (aggregate_call f a ty) _ refl (keeps.aggregates f s hs.0)
    expr-Written (value_codec_round_trip c a ty) h =
        Given-bind (Written a) (Written (value_codec_round_trip c a ty)) (expr spelling a) _
          (expr-Written a h) λ s hs. codec_Written c a ty s hs.0 (spelling.value_codec_sql c s) refl
    expr-Written (window_frame kind) h = tt
    expr-Written (window_call f a p o frame ty) h =
        Given-bind (All Balanced) (Written (window_call f a p o frame ty)) (exprs spelling a) _
          (exprs-Balanced a h.0)
          λ ts hs.
            Given-bind (All Balanced) (Written (window_call f a p o frame ty)) (exprs spelling p) _
              (exprs-Balanced p h.1)
              λ us hu.
                Given-bind (All Balanced) (Written (window_call f a p o frame ty))
                  (exprs spelling o) _ (exprs-Balanced o h.2)
                  λ vs hv.
                    compound (window_call f a p o frame ty) _ refl
                      (window-Balanced f ts us vs frame hs hu hv)

    exprs-Balanced : (es : Expressions) → AreSpelt es → Given (All Balanced) (exprs spelling es)
    exprs-Balanced nil h = tt
    exprs-Balanced (cons e es) h =
        Given-bind (Written e) (All Balanced) (expr spelling e) _ (expr-Written e h.0) λ s hs.
          Given-bind (All Balanced) (All Balanced) (exprs spelling es) _ (exprs-Balanced es h.1)
            λ ts ht. (hs.0, ht)

  given : (P : Text → Type 0) (o : Option Text) (s : Text) → Given P o → o ≡ some s → P s
  given P (some t) s h e = subst P (some-injective t s e) h
  given P none s h e = absurd (none_some s e)
    where
      none_some : (s : Text) → ◌≡◌ {A = Option Text} none (some s) → ⊥
      none_some s e = cc

  -- For an engine whose own texts keep brackets, and a tree whose names and raw texts have no space
  -- outside brackets and whose predicates have brackets that match: in the SQL text of an
  -- expression every bracket is closed, and in its text as an operand no space stands outside
  -- brackets.
  pub expr-brackets :
      (e : ExpressionNode) (s : Text)
      → IsSpelt e
      → expr spelling e ≡ some s
      → (walk false 0 s ≡ some 0) × (walk true 0 (bracketed e s) ≡ some 0)
  expr-brackets e s h k =
      let written = given (Written e) (expr spelling e) s (expr-Written e h) k in
      (walk-Balanced s written.0, walk-Tight (bracketed e s) (bracketed-Tight e s written))
