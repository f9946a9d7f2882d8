-- ===== src/Sql/Truth.antt =====
-- SQL's three truth values and the tables of its connectives.
use coa.Base.{Bool, true, false}

pub data Truth : Type 0 where
  yes_true yes_false unknown : Truth

abbrev pub not3 : Truth → Truth
not3 yes_true = yes_false
not3 yes_false = yes_true
not3 unknown = unknown

abbrev pub and3 : Truth → Truth → Truth
and3 yes_false b = yes_false
and3 yes_true b = b
and3 unknown yes_false = yes_false
and3 unknown yes_true = unknown
and3 unknown unknown = unknown

abbrev pub or3 : Truth → Truth → Truth
or3 yes_true b = yes_true
or3 yes_false b = b
or3 unknown yes_true = yes_true
or3 unknown yes_false = unknown
or3 unknown unknown = unknown

abbrev pub of_bool : Bool → Truth
of_bool true = yes_true
of_bool false = yes_false

-- A `WHERE` keeps the rows at which its condition is true, and no row at which it is unknown.
abbrev pub holds : Truth → Bool
holds yes_true = true
holds _ = false

abbrev pub is_unknown : Truth → Bool
is_unknown unknown = true
is_unknown _ = false
