-- ===== src/Ir/Render/Types.antt =====
-- The name of a column type, for PostgreSQL in eqgen/ir/render.py, for DuckDB in
-- eqgen/dialects/duckdb/emitter.py, for SQLite, MySQL, ClickHouse and CrateDB in their types_sql.py.
-- Each asks for a subclass before its base.
use coa.Base.{ℕ, zero, suc, Bool, true, false, if◌then◌else◌, Option, none, some, ◌++◌}
use coa.Base.Text.{Text, codes}
use coa.Base.Decimal.{str}
use coa.Core.Types.{
  SqlType, TypeKind, integer, numeric, double, varchar, char, text, boolean, date, timestamp, jsonb,
  uuid, int4range,
}

abbrev pub sized : Text → Option ℕ → Text
sized name none = name
sized name (some precision) = name ++ (codes "(" ++ str precision ++ codes ")")

abbrev pub scaled : Text → ℕ → ℕ → Text
scaled name precision scale =
    name ++ (codes "(" ++ (str precision ++ codes ", " ++ str scale) ++ codes ")")

abbrev pub numeric_sql : Option ℕ → Option ℕ → Text
numeric_sql none scale = codes "NUMERIC"
numeric_sql (some precision) none = sized (codes "NUMERIC") (some precision)
numeric_sql (some precision) (some scale) = scaled (codes "NUMERIC") precision scale

abbrev pub postgres_kind_sql : TypeKind → Option ℕ → Option ℕ → Text
postgres_kind_sql integer precision scale = codes "INTEGER"
postgres_kind_sql double precision scale = codes "DOUBLE PRECISION"
postgres_kind_sql numeric precision scale = numeric_sql precision scale
postgres_kind_sql text precision scale = codes "TEXT"
postgres_kind_sql char precision scale = sized (codes "CHAR") precision
postgres_kind_sql varchar precision scale = sized (codes "VARCHAR") precision
postgres_kind_sql boolean precision scale = codes "BOOLEAN"
postgres_kind_sql date precision scale = codes "DATE"
postgres_kind_sql timestamp precision scale = codes "TIMESTAMP"
postgres_kind_sql jsonb precision scale = codes "JSONB"
postgres_kind_sql uuid precision scale = codes "UUID"
postgres_kind_sql int4range precision scale = codes "INT4RANGE"

-- `PostgresSpelling.type_sql`
unfoldable pub postgres_type : SqlType → Option Text
unfolding str
postgres_type t = some (postgres_kind_sql t.kind t.precision t.scale)

-- `scale in (None, 0)`
abbrev pub no_scale : Option ℕ → Bool
no_scale none = true
no_scale (some zero) = true
no_scale (some (suc s)) = false

-- `value or default`, for a number that may be absent
abbrev pub or_default : Option ℕ → ℕ → ℕ
or_default none d = d
or_default (some zero) d = d
or_default (some (suc n)) d = suc n

abbrev pub duckdb_numeric : Option ℕ → Option ℕ → Text
duckdb_numeric none scale = if no_scale scale then codes "BIGINT" else codes "DECIMAL"
duckdb_numeric (some precision) scale = scaled (codes "DECIMAL") precision (or_default scale 0)

abbrev pub duckdb_kind_sql : TypeKind → Option ℕ → Option ℕ → Option Text
duckdb_kind_sql double precision scale = some (codes "DOUBLE")
duckdb_kind_sql integer precision scale = some (codes "BIGINT")
duckdb_kind_sql numeric precision scale = some (duckdb_numeric precision scale)
duckdb_kind_sql boolean precision scale = some (codes "BOOLEAN")
duckdb_kind_sql date precision scale = some (codes "DATE")
duckdb_kind_sql timestamp precision scale = some (codes "TIMESTAMP")
duckdb_kind_sql text precision scale = some (codes "VARCHAR")
duckdb_kind_sql char precision scale = some (codes "VARCHAR")
duckdb_kind_sql varchar precision scale = some (codes "VARCHAR")
duckdb_kind_sql _ precision scale = none

-- `duckdb_type`
unfoldable pub duckdb_type : SqlType → Option Text
unfolding str
duckdb_type t = duckdb_kind_sql t.kind t.precision t.scale

abbrev pub sqlite_kind_sql : TypeKind → Text
sqlite_kind_sql integer = codes "INTEGER"
sqlite_kind_sql boolean = codes "INTEGER"
sqlite_kind_sql double = codes "REAL"
sqlite_kind_sql numeric = codes "NUMERIC"
sqlite_kind_sql _ = codes "TEXT"

-- `sqlite_type`
unfoldable pub sqlite_type : SqlType → Text
sqlite_type t = sqlite_kind_sql t.kind

-- a whole number's name, or a decimal's with both parameters
abbrev whole_or_decimal : Text → Text → ℕ → Option ℕ → Option ℕ → Text
whole_or_decimal whole decimal precision_default precision none = whole
whole_or_decimal whole decimal precision_default precision (some zero) = whole
whole_or_decimal whole decimal precision_default precision (some (suc s)) =
    scaled decimal (or_default precision precision_default) (suc s)

-- `TEXT_LENGTH`
abbrev text_length : ℕ
text_length = 255

abbrev mysql_kind_sql : TypeKind → Option ℕ → Option ℕ → Text
mysql_kind_sql boolean precision scale = codes "TINYINT(1)"
mysql_kind_sql double precision scale = codes "DOUBLE"
mysql_kind_sql integer precision scale = codes "BIGINT"
mysql_kind_sql numeric precision scale =
    whole_or_decimal (codes "BIGINT") (codes "DECIMAL") 38 precision scale
mysql_kind_sql date precision scale = codes "DATE"
mysql_kind_sql timestamp precision scale = codes "DATETIME(6)"
mysql_kind_sql _ precision scale = sized (codes "VARCHAR") (some text_length)

-- `mysql_type`
unfoldable pub mysql_type : SqlType → Text
unfolding str
mysql_type t = mysql_kind_sql t.kind t.precision t.scale

abbrev mysql_cast_kind_sql : TypeKind → Option ℕ → Option ℕ → Text
mysql_cast_kind_sql boolean precision scale = codes "SIGNED"
mysql_cast_kind_sql double precision scale = codes "DOUBLE"
mysql_cast_kind_sql integer precision scale = codes "SIGNED"
mysql_cast_kind_sql numeric precision scale =
    whole_or_decimal (codes "SIGNED") (codes "DECIMAL") 38 precision scale
mysql_cast_kind_sql date precision scale = codes "DATE"
mysql_cast_kind_sql timestamp precision scale = codes "DATETIME(6)"
mysql_cast_kind_sql _ precision scale = sized (codes "CHAR") (some text_length)

-- `mysql_cast_type`
unfoldable pub mysql_cast_type : SqlType → Text
unfolding str
mysql_cast_type t = mysql_cast_kind_sql t.kind t.precision t.scale

abbrev clickhouse_kind_sql : TypeKind → Option ℕ → Option ℕ → Text
clickhouse_kind_sql double precision scale = codes "Float64"
clickhouse_kind_sql integer precision scale = codes "Int64"
clickhouse_kind_sql numeric precision scale =
    whole_or_decimal (codes "Int64") (codes "Decimal") 18 precision scale
clickhouse_kind_sql boolean precision scale = codes "Bool"
clickhouse_kind_sql date precision scale = codes "Date32"
clickhouse_kind_sql timestamp precision scale = codes "DateTime64(6)"
clickhouse_kind_sql _ precision scale = codes "String"

-- `clickhouse_type`
unfoldable pub clickhouse_type : SqlType → Text
unfolding str
clickhouse_type t = codes "Nullable(" ++ clickhouse_kind_sql t.kind t.precision t.scale ++ codes ")"

abbrev cratedb_kind_sql : TypeKind → Option ℕ → Option ℕ → Text
cratedb_kind_sql double precision scale = codes "DOUBLE PRECISION"
cratedb_kind_sql integer precision scale = codes "BIGINT"
cratedb_kind_sql numeric precision scale =
    whole_or_decimal (codes "BIGINT") (codes "NUMERIC") 18 precision scale
cratedb_kind_sql boolean precision scale = codes "BOOLEAN"
cratedb_kind_sql date precision scale = codes "TIMESTAMP WITHOUT TIME ZONE"
cratedb_kind_sql timestamp precision scale = codes "TIMESTAMP WITHOUT TIME ZONE"
cratedb_kind_sql _ precision scale = codes "TEXT"

-- `cratedb_type`; `IntegerType` is a `NumericType` of scale 0, so the first test takes it
unfoldable pub cratedb_type : SqlType → Text
unfolding str
cratedb_type t = cratedb_kind_sql t.kind t.precision t.scale
