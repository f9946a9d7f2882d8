-- ===== src/Ir/Render/Engines.antt =====
-- `PostgresSpelling` of eqgen/ir/render.py, `DuckDBSpelling` of eqgen/dialects/duckdb/emitter.py and
-- `SqliteSpelling` of eqgen/dialects/sqlite/emitter.py. DuckDB overrides the type and the codec,
-- SQLite the remainder and `ANY_VALUE` too.
use coa.Base.{ℕ, Option, none, some, ◌++◌}
use coa.Base.Text.{Text, codes}
use coa.Base.Decimal.{str}
use coa.Ir.Expr.{AggregateFunction, agg_min, agg_max, any_value, ValueCodec, hex, base64, json_pack}
use coa.Ir.Render.{Spelling, aggregate_name, bracket}
use coa.Ir.Render.Types.{postgres_type, duckdb_type, sqlite_type}

-- `Spelling.mod_sql`
unfoldable pub mod_call : Text → ℕ → Text
unfolding str
mod_call inner modulus = codes "MOD(" ++ inner ++ codes ", " ++ str modulus ++ codes ")"

-- `Spelling.aggregate_sql`
unfoldable pub aggregate_call_sql : AggregateFunction → Text → Text
aggregate_call_sql f inner = aggregate_name f ++ bracket inner

abbrev pub convert_tail : Text → Text
convert_tail fmt = codes " AS BYTEA), '" ++ fmt ++ codes "'), '" ++ fmt ++ codes "'), 'UTF8')"

abbrev convert_from : Text → Text → Text
convert_from fmt inner = codes "convert_from(decode(encode(CAST(" ++ inner ++ convert_tail fmt

-- `PostgresSpelling.value_codec_sql`
unfoldable pub postgres_codec : ValueCodec → Text → Option Text
postgres_codec json_pack inner =
    some (codes "(jsonb_build_object('v', " ++ inner ++ codes ") ->> 'v')")
postgres_codec hex inner = some (convert_from (codes "hex") inner)
postgres_codec base64 inner = some (convert_from (codes "base64") inner)

-- `DuckDBSpelling.value_codec_sql`
unfoldable pub duckdb_codec : ValueCodec → Text → Option Text
duckdb_codec json_pack inner =
    some (codes "json_extract_string(json_object('v', " ++ inner ++ codes "), '$.v')")
duckdb_codec hex inner = some (codes "decode(unhex(hex(encode(" ++ inner ++ codes "))))")
duckdb_codec base64 inner =
    some (codes "decode(from_base64(to_base64(encode(" ++ inner ++ codes "))))")

-- `SqliteSpelling.value_codec_sql`
unfoldable pub sqlite_codec : ValueCodec → Text → Option Text
sqlite_codec json_pack inner =
    some (codes "json_extract(json_object('v', " ++ inner ++ codes "), '$.v')")
sqlite_codec hex inner = some (codes "CAST(unhex(hex(" ++ inner ++ codes ")) AS TEXT)")
sqlite_codec base64 inner = none

-- `SqliteSpelling.mod_sql`
unfoldable pub sqlite_mod : Text → ℕ → Text
unfolding str
sqlite_mod inner modulus = bracket (bracket inner ++ codes " % " ++ str modulus)

-- `SqliteSpelling.aggregate_sql`
unfoldable pub sqlite_aggregate : AggregateFunction → Text → Text
unfolding aggregate_call_sql
sqlite_aggregate any_value inner = codes "MAX" ++ bracket inner
sqlite_aggregate agg_min inner = aggregate_call_sql agg_min inner
sqlite_aggregate agg_max inner = aggregate_call_sql agg_max inner

abbrev pub postgres_spelling : Spelling
postgres_spelling = record {
  type_sql = postgres_type;
  value_codec_sql = postgres_codec;
  mod_sql = mod_call;
  aggregate_sql = aggregate_call_sql;
}

abbrev pub duckdb_spelling : Spelling
duckdb_spelling = record {
  type_sql = duckdb_type;
  value_codec_sql = duckdb_codec;
  mod_sql = mod_call;
  aggregate_sql = aggregate_call_sql;
}

abbrev pub sqlite_spelling : Spelling
sqlite_spelling = record {
  type_sql = λ t. some (sqlite_type t);
  value_codec_sql = sqlite_codec;
  mod_sql = sqlite_mod;
  aggregate_sql = sqlite_aggregate;
}
