-- ===== src/Core/Catalog.antt =====
-- eqgen/core/catalog.py: a base table as its name, its columns in order and its schema.
use coa.Base.{ℕ, Bool, List, ◌++◌, map, Option, none, some}
use coa.Base.Text.{Text, codes}
use coa.Core.Types.{SqlType}

-- `Named[SqlType]`: one output column of a relation
pub record Named : Type 0 where
  pub alias : Text
  pub target : SqlType

pub record Column : Type 0 where
  pub name : Text
  pub data_type : SqlType
  pub position : ℕ
  pub nullable : Bool

pub record Table : Type 0 where
  pub name : Text
  pub columns : List Column
  pub schema : Option Text

abbrev qualify : Option Text → Text → Text
qualify none name = name
qualify (some schema) name = schema ++ codes "." ++ name

-- `get_sql_name(use_schema_name)`
unfoldable pub get_sql_name : Bool → Table → Text
get_sql_name use_schema t = elim use_schema [
  | Bool.true ↦ qualify t.schema t.name
  | Bool.false ↦ t.name
]

abbrev pub column_named : Column → Named
column_named c = record { alias = c.name; target = c.data_type }

-- `Table.get_signature`
unfoldable pub signature : Table → List Named
signature t = map column_named t.columns
