-- ===== src/Core/Types.antt =====
-- eqgen/core/types.py: the twelve column types with their precision, scale and properties.
use coa.Base.{ℕ, Bool, true, false, Option, none, some}

-- One constructor for each concrete class; precision and scale are the class's two fields.
pub data TypeKind : Type 0 where
  integer numeric double varchar char text boolean date timestamp jsonb uuid int4range : TypeKind

pub record SqlType : Type 0 where
  pub kind : TypeKind
  pub precision : Option ℕ
  pub scale : Option ℕ

abbrev pub plain : TypeKind → SqlType
plain k = record { kind = k; precision = none; scale = none }

-- `TypeProperty`, a set of three flags
pub record TypeProperty : Type 0 where
  pub orderable : Bool
  pub groupable : Bool
  pub aggregatable : Bool

abbrev every_property : TypeProperty
every_property = record { orderable = true; groupable = true; aggregatable = true }

abbrev only_groupable : TypeProperty
only_groupable = record { orderable = false; groupable = true; aggregatable = false }

-- `get_properties`, with the overrides of `JsonbType` and `Int4RangeType`
abbrev kind_properties : TypeKind → TypeProperty
kind_properties jsonb = only_groupable
kind_properties int4range = only_groupable
kind_properties _ = every_property

unfoldable pub get_properties : SqlType → TypeProperty
get_properties t = kind_properties t.kind

-- `get_scale`, with the override of `IntegerType`
abbrev kind_scale : TypeKind → Option ℕ → Option ℕ
kind_scale integer s = some 0
kind_scale _ s = s

unfoldable pub get_scale : SqlType → Option ℕ
get_scale t = kind_scale t.kind t.scale

-- `isinstance(t, NumericType)`: `IntegerType` is a subclass of it
abbrev kind_is_numeric : TypeKind → Bool
kind_is_numeric integer = true
kind_is_numeric numeric = true
kind_is_numeric _ = false

unfoldable pub is_numeric : SqlType → Bool
is_numeric t = kind_is_numeric t.kind

-- `isinstance(t, VarcharType)`: `CharType` and `TextType` are subclasses of it
abbrev kind_is_varchar : TypeKind → Bool
kind_is_varchar varchar = true
kind_is_varchar char = true
kind_is_varchar text = true
kind_is_varchar _ = false

unfoldable pub is_varchar : SqlType → Bool
is_varchar t = kind_is_varchar t.kind
