-- ===== src/Equivalence/Contract/Generation.antt =====
-- The whole of a generation: it ends, and what it returns holds the rows of the base table.
use mathlib.Core.List.{Perm}
use coa.Base.{ℕ, ◌<◌, List, ◌≡◌}
use coa.Base.Text.{Text}
use coa.Core.Catalog.{signature}
use coa.Ir.Expr.{ValueCodec}
use coa.Equivalence.Ast.{EquivalentRelation, signature_of_relation}
use coa.Equivalence.Context.{Context, Environment, Outcome, built, declined, raised}
use coa.Equivalence.Factory.Dispatch.{Factory, generate}
use coa.Equivalence.Contract.Yields.{Post}
use coa.Equivalence.Contract.Promise.{BaseTable}
use coa.Equivalence.Contract.Rewrites.{Lossless}
use coa.Equivalence.Contract.Steady.{Fuelled, NoFuelError}
use coa.Equivalence.Contract.Tree.{generate-Holds}
use coa.Equivalence.Contract.Termination.{generate-Steady}
use coa.Sql.Engine.{Engine}
use coa.Sql.Executor.{Executor, Row, names}
use coa.Sql.Denotation.{rows_of_relation}

-- a generation builds a relation with a property, declines, or raises an error of the program
abbrev pub Ends : (EquivalentRelation → Type 0) → Outcome EquivalentRelation → Type 0
Ends P (built r) = P r
Ends P declined = Unit
Ends P (raised e) = Fuelled e

both_ways :
    (P : EquivalentRelation → Type 0) (o : Outcome EquivalentRelation)
    → Post P o
    → NoFuelError o
    → Ends P o
both_ways P (built r) h k = h
both_ways P declined h k = tt
both_ways P (raised e) h k = k

module _ {E : Engine} (X : Executor E) (env : Environment) (base : List (Row E)) where
  -- the rows of a relation are those of the base table, in some order, under the same names
  abbrev pub IsEquivalent : EquivalentRelation → Type 0
  IsEquivalent r =
      Perm (rows_of_relation X base r) base
      × (names (signature_of_relation r) ≡ names (signature env.base_table))

  -- For an engine that keeps the laws of `Engine` and `Executor` and whose codecs give texts back,
  -- over a base table of distinct columns whose rows have a value for each: a generation begun at
  -- depth 0, with fuel above the depth limit, builds a relation that holds exactly the base rows,
  -- duplicates counted, under the base table's column names, or declines, or raises an error other
  -- than that of the fuel. So it is for every list of the builders, every weight and every random
  -- number.
  pub generate-IsEquivalent :
      (f : Factory) (fuel : ℕ) (name : Text) (c : Context)
      → BaseTable X env base
      → ((codec : ValueCodec) → Lossless E codec)
      → env.max_depth < fuel
      → c.depth ≡ 0
      → Ends IsEquivalent (generate env f fuel name c).0
  generate-IsEquivalent f fuel name c b lossless enough start =
      both_ways IsEquivalent (generate env f fuel name c).0
        ((generate-Holds X env base b lossless f fuel name).at c)
        ((generate-Steady env f fuel name enough).at c start).fuelled
