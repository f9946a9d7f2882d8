-- ===== src/Ir/Render/Codecs.antt =====
-- The codecs, remainders and aggregates of PostgreSQL, DuckDB and SQLite keep brackets, so their
-- spellings do.
use coa.Base.{ℕ, suc, false, some, ◌++◌, ◌≡◌, refl, any}
use coa.Base.Text.{Text, codes}
use coa.Base.Decimal.{str}
use coa.Core.Types.{SqlType}
use coa.Ir.Expr.{AggregateFunction, agg_min, agg_max, any_value, ValueCodec, hex, base64, json_pack}
use coa.Ir.Render.{bracket}
use coa.Ir.Render.Types.{postgres_type, duckdb_type, sqlite_type}
use coa.Ir.Render.Engines.{
  mod_call, aggregate_call_sql, postgres_codec, duckdb_codec, sqlite_codec, sqlite_mod,
  sqlite_aggregate, convert_tail, postgres_spelling, duckdb_spelling, sqlite_spelling,
}
use coa.Ir.Render.Brackets.{
  is_bracket, walk, Balanced, Tight, Tight-Balanced, Balanced-append, Tight-append, no_space-Tight,
  bracket-Tight,
}
use coa.Ir.Render.Operands.{KeepsBrackets, literal}
use coa.Ir.Render.TypeNames.{
  wrapped, number-Balanced, postgres_kind-Balanced, duckdb_kind-Balanced, sqlite_kind-Balanced,
  returned, refused,
}

postgres_codec-Balanced :
    (c : ValueCodec) (inner t : Text)
    → Balanced inner
    → postgres_codec c inner ≡ some t
    → Balanced t
unfolding postgres_codec walk
postgres_codec-Balanced json_pack inner t h = returned _ t (
    wrapped (codes "(jsonb_build_object('v', ") (codes ") ->> 'v')") inner (λ d. suc (suc d))
      (λ d r. refl) (λ d r. refl) (λ d r. refl) (λ d r. refl) h)
postgres_codec-Balanced hex inner t h = returned _ t (
    wrapped (codes "convert_from(decode(encode(CAST(") (convert_tail (codes "hex")) inner
      (λ d. suc (suc (suc (suc d)))) (λ d r. refl) (λ d r. refl) (λ d r. refl) (λ d r. refl) h)
postgres_codec-Balanced base64 inner t h = returned _ t (
    wrapped (codes "convert_from(decode(encode(CAST(") (convert_tail (codes "base64")) inner
      (λ d. suc (suc (suc (suc d)))) (λ d r. refl) (λ d r. refl) (λ d r. refl) (λ d r. refl) h)

duckdb_codec-Balanced :
    (c : ValueCodec) (inner t : Text) → Balanced inner → duckdb_codec c inner ≡ some t → Balanced t
unfolding duckdb_codec walk
duckdb_codec-Balanced json_pack inner t h = returned _ t (
    wrapped (codes "json_extract_string(json_object('v', ") (codes "), '$.v')") inner
      (λ d. suc (suc d)) (λ d r. refl) (λ d r. refl) (λ d r. refl) (λ d r. refl) h)
duckdb_codec-Balanced hex inner t h = returned _ t (
    wrapped (codes "decode(unhex(hex(encode(") (codes "))))") inner (λ d. suc (suc (suc (suc d))))
      (λ d r. refl) (λ d r. refl) (λ d r. refl) (λ d r. refl) h)
duckdb_codec-Balanced base64 inner t h = returned _ t (
    wrapped (codes "decode(from_base64(to_base64(encode(") (codes "))))") inner
      (λ d. suc (suc (suc (suc d)))) (λ d r. refl) (λ d r. refl) (λ d r. refl) (λ d r. refl) h)

sqlite_codec-Balanced :
    (c : ValueCodec) (inner t : Text) → Balanced inner → sqlite_codec c inner ≡ some t → Balanced t
unfolding sqlite_codec walk
sqlite_codec-Balanced json_pack inner t h = returned _ t (
    wrapped (codes "json_extract(json_object('v', ") (codes "), '$.v')") inner (λ d. suc (suc d))
      (λ d r. refl) (λ d r. refl) (λ d r. refl) (λ d r. refl) h)
sqlite_codec-Balanced hex inner t h = returned _ t (
    wrapped (codes "CAST(unhex(hex(") (codes ")) AS TEXT)") inner (λ d. suc (suc (suc d)))
      (λ d r. refl) (λ d r. refl) (λ d r. refl) (λ d r. refl) h)
sqlite_codec-Balanced base64 inner t h = refused t

mod_call-Tight : (inner : Text) (m : ℕ) → Balanced inner → Tight (mod_call inner m)
unfolding mod_call
mod_call-Tight inner m h =
    let body =
      Balanced-append (inner ++ codes ", ") (str m)
        (Balanced-append inner (codes ", ") h (literal (codes ", ") refl)) (number-Balanced m) in
    Tight-append (codes "MOD") (bracket (inner ++ codes ", " ++ str m))
      (no_space-Tight (codes "MOD") refl) (bracket-Tight (inner ++ codes ", " ++ str m) body)

sqlite_mod-Tight : (inner : Text) (m : ℕ) → Balanced inner → Tight (sqlite_mod inner m)
unfolding sqlite_mod
sqlite_mod-Tight inner m h = bracket-Tight (bracket inner ++ codes " % " ++ str m) (
    Balanced-append (bracket inner ++ codes " % ") (str m)
      (Balanced-append (bracket inner) (codes " % ") (Tight-Balanced (bracket-Tight inner h))
        (literal (codes " % ") refl))
      (number-Balanced m))

called-Balanced :
    (name inner : Text)
    → any is_bracket name ≡ false
    → Balanced inner
    → Balanced (name ++ bracket inner)
called-Balanced name inner q h =
    Balanced-append name (bracket inner) (literal name q) (Tight-Balanced (bracket-Tight inner h))

aggregate-Balanced :
    (f : AggregateFunction) (inner : Text) → Balanced inner → Balanced (aggregate_call_sql f inner)
unfolding aggregate_call_sql
aggregate-Balanced agg_min inner h = called-Balanced (codes "MIN") inner refl h
aggregate-Balanced agg_max inner h = called-Balanced (codes "MAX") inner refl h
aggregate-Balanced any_value inner h = called-Balanced (codes "ANY_VALUE") inner refl h

sqlite_aggregate-Balanced :
    (f : AggregateFunction) (inner : Text) → Balanced inner → Balanced (sqlite_aggregate f inner)
unfolding sqlite_aggregate
sqlite_aggregate-Balanced agg_min inner h = aggregate-Balanced agg_min inner h
sqlite_aggregate-Balanced agg_max inner h = aggregate-Balanced agg_max inner h
sqlite_aggregate-Balanced any_value inner h = called-Balanced (codes "MAX") inner refl h

postgres_type-Balanced : (t : SqlType) (s : Text) → postgres_type t ≡ some s → Balanced s
unfolding postgres_type
postgres_type-Balanced t s = returned _ s (postgres_kind-Balanced t.kind t.precision t.scale)

duckdb_type-Balanced : (t : SqlType) (s : Text) → duckdb_type t ≡ some s → Balanced s
unfolding duckdb_type
duckdb_type-Balanced t s = duckdb_kind-Balanced t.kind t.precision t.scale s

sqlite_type-Balanced : (t : SqlType) (s : Text) → some (sqlite_type t) ≡ some s → Balanced s
unfolding sqlite_type
sqlite_type-Balanced t s = returned _ s (sqlite_kind-Balanced t.kind)

pub postgres-KeepsBrackets : KeepsBrackets postgres_spelling
postgres-KeepsBrackets = record {
  types = postgres_type-Balanced;
  codecs = postgres_codec-Balanced;
  mods = mod_call-Tight;
  aggregates = aggregate-Balanced;
}

pub duckdb-KeepsBrackets : KeepsBrackets duckdb_spelling
duckdb-KeepsBrackets = record {
  types = duckdb_type-Balanced;
  codecs = duckdb_codec-Balanced;
  mods = mod_call-Tight;
  aggregates = aggregate-Balanced;
}

pub sqlite-KeepsBrackets : KeepsBrackets sqlite_spelling
sqlite-KeepsBrackets = record {
  types = sqlite_type-Balanced;
  codecs = sqlite_codec-Balanced;
  mods = sqlite_mod-Tight;
  aggregates = sqlite_aggregate-Balanced;
}
