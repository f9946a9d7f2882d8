-- ===== src/Ir/Render/TypeNames.antt =====
-- The engines' own texts keep brackets: PostgreSQL of eqgen/ir/render.py, DuckDB and SQLite of their
-- emitter.py.
use coa.Base.{
  ℕ, suc, Bool, true, false, if◌then◌else◌, Option, none, some, ◌++◌, ◌≡◌, refl, ap, ◌∙◌, subst,
  append_assoc, any,
}
use mathlib.Core.Option.{some-injective}
use coa.Base.Text.{Text, codes}
use coa.Base.Decimal.{str}
use coa.Core.Types.{
  TypeKind, integer, numeric, double, varchar, char, text, boolean, date, timestamp, jsonb, uuid,
  int4range,
}
use coa.Ir.Render.{bracket}
use coa.Ir.Render.Types.{
  postgres_kind_sql, duckdb_kind_sql, sqlite_kind_sql, sized, scaled, numeric_sql, duckdb_numeric,
  no_scale, or_default,
}
use coa.Ir.Render.Brackets.{
  is_bracket, walk, Balanced, Tight-Balanced, Balanced-append, str-Tight, bracket-Tight,
}
use coa.Ir.Render.Operands.{literal}

-- A text between an opening that goes down to another depth and a tail that comes back.
pub wrapped :
    (opening tail inner : Text) (down : ℕ → ℕ)
    → ((d : ℕ) (rest : Text) → walk false d (opening ++ rest) ≡ walk false (down d) rest)
    → ((d : ℕ) (rest : Text) → walk true (suc d) (opening ++ rest) ≡ walk true (suc (down d)) rest)
    → ((d : ℕ) (rest : Text) → walk false (down d) (tail ++ rest) ≡ walk false d rest)
    → ((d : ℕ) (rest : Text) → walk true (suc (down d)) (tail ++ rest) ≡ walk true (suc d) rest)
    → Balanced inner
    → Balanced (opening ++ inner ++ tail)
wrapped opening tail inner down o os c cs h = record {
  loose = λ d rest.
      ap (walk false d) (regroup rest)
      ∙ o d (inner ++ (tail ++ rest))
      ∙ h.loose (down d) (tail ++ rest)
      ∙ c d rest;
  inner = λ d rest.
      ap (walk true (suc d)) (regroup rest)
      ∙ os d (inner ++ (tail ++ rest))
      ∙ h.inner (down d) (tail ++ rest)
      ∙ cs d rest;
}
  where
    regroup :
        (rest : Text) → opening ++ inner ++ tail ++ rest ≡ opening ++ (inner ++ (tail ++ rest))
    regroup rest =
        append_assoc (opening ++ inner) tail rest ∙ append_assoc opening inner (tail ++ rest)

pub number-Balanced : (n : ℕ) → Balanced (str n)
number-Balanced n = Tight-Balanced (str-Tight n)

sized-Balanced :
    (name : Text) (p : Option ℕ) → any is_bracket name ≡ false → Balanced (sized name p)
sized-Balanced name none h = literal name h
sized-Balanced name (some n) h =
    Balanced-append name (bracket (str n)) (literal name h)
      (Tight-Balanced (bracket-Tight (str n) (number-Balanced n)))

scaled-Balanced : (name : Text) (p s : ℕ) → any is_bracket name ≡ false → Balanced (scaled name p s)
scaled-Balanced name p s h =
    Balanced-append name (bracket (str p ++ codes ", " ++ str s)) (literal name h) (
      Tight-Balanced (
        bracket-Tight (str p ++ codes ", " ++ str s) (
          Balanced-append (str p ++ codes ", ") (str s)
            (Balanced-append (str p) (codes ", ") (number-Balanced p) (literal (codes ", ") refl))
            (number-Balanced s))))

numeric-Balanced : (p s : Option ℕ) → Balanced (numeric_sql p s)
numeric-Balanced none s = literal (codes "NUMERIC") refl
numeric-Balanced (some p) none = sized-Balanced (codes "NUMERIC") (some p) refl
numeric-Balanced (some p) (some s) = scaled-Balanced (codes "NUMERIC") p s refl

pub postgres_kind-Balanced : (k : TypeKind) (p s : Option ℕ) → Balanced (postgres_kind_sql k p s)
postgres_kind-Balanced integer p s = literal (codes "INTEGER") refl
postgres_kind-Balanced double p s = literal (codes "DOUBLE PRECISION") refl
postgres_kind-Balanced numeric p s = numeric-Balanced p s
postgres_kind-Balanced text p s = literal (codes "TEXT") refl
postgres_kind-Balanced char p s = sized-Balanced (codes "CHAR") p refl
postgres_kind-Balanced varchar p s = sized-Balanced (codes "VARCHAR") p refl
postgres_kind-Balanced boolean p s = literal (codes "BOOLEAN") refl
postgres_kind-Balanced date p s = literal (codes "DATE") refl
postgres_kind-Balanced timestamp p s = literal (codes "TIMESTAMP") refl
postgres_kind-Balanced jsonb p s = literal (codes "JSONB") refl
postgres_kind-Balanced uuid p s = literal (codes "UUID") refl
postgres_kind-Balanced int4range p s = literal (codes "INT4RANGE") refl

duckdb_numeric-Balanced : (p s : Option ℕ) → Balanced (duckdb_numeric p s)
duckdb_numeric-Balanced none s = unsized (no_scale s)
  where
    unsized : (b : Bool) → Balanced (if b then codes "BIGINT" else codes "DECIMAL")
    unsized true = literal (codes "BIGINT") refl
    unsized false = literal (codes "DECIMAL") refl
duckdb_numeric-Balanced (some p) s = scaled-Balanced (codes "DECIMAL") p (or_default s 0) refl

-- from a text that is returned for sure
pub returned : (s t : Text) → Balanced s → some s ≡ some t → Balanced t
returned s t h e = subst Balanced (some-injective s t e) h

pub refused : (t : Text) → ◌≡◌ {A = Option Text} none (some t) → Balanced t
refused t e = absurd (clash t e)
  where
    clash : (t : Text) → ◌≡◌ {A = Option Text} none (some t) → ⊥
    clash t e = cc

pub duckdb_kind-Balanced :
    (k : TypeKind) (p s : Option ℕ) (t : Text) → duckdb_kind_sql k p s ≡ some t → Balanced t
duckdb_kind-Balanced double p s t = returned (codes "DOUBLE") t (literal (codes "DOUBLE") refl)
duckdb_kind-Balanced integer p s t = returned (codes "BIGINT") t (literal (codes "BIGINT") refl)
duckdb_kind-Balanced numeric p s t = returned (duckdb_numeric p s) t (duckdb_numeric-Balanced p s)
duckdb_kind-Balanced boolean p s t = returned (codes "BOOLEAN") t (literal (codes "BOOLEAN") refl)
duckdb_kind-Balanced date p s t = returned (codes "DATE") t (literal (codes "DATE") refl)
duckdb_kind-Balanced timestamp p s t =
    returned (codes "TIMESTAMP") t (literal (codes "TIMESTAMP") refl)
duckdb_kind-Balanced text p s t = returned (codes "VARCHAR") t (literal (codes "VARCHAR") refl)
duckdb_kind-Balanced char p s t = returned (codes "VARCHAR") t (literal (codes "VARCHAR") refl)
duckdb_kind-Balanced varchar p s t = returned (codes "VARCHAR") t (literal (codes "VARCHAR") refl)
duckdb_kind-Balanced jsonb p s t = refused t
duckdb_kind-Balanced uuid p s t = refused t
duckdb_kind-Balanced int4range p s t = refused t

pub sqlite_kind-Balanced : (k : TypeKind) → Balanced (sqlite_kind_sql k)
sqlite_kind-Balanced integer = literal (codes "INTEGER") refl
sqlite_kind-Balanced boolean = literal (codes "INTEGER") refl
sqlite_kind-Balanced double = literal (codes "REAL") refl
sqlite_kind-Balanced numeric = literal (codes "NUMERIC") refl
sqlite_kind-Balanced _ = literal (codes "TEXT") refl
