-- ===== src/Lib.antt =====
-- The generator of Composable Oracle Algebra builds, for a base table, another relation that holds
-- the same rows and is reached by other statements; a harness runs each query on both and reports
-- a difference. This library models the generator's core and the comparison, and shows that what
-- the generator builds is equivalent to the base table under any engine that keeps the documented
-- laws of SQL, and that the comparison classes its results as it says.
--
-- The parts, and the files of the repository that they translate:
--   Core                   eqgen/core/types.py and catalog.py: column types, base tables
--   Ir/Expr                eqgen/ir/expr.py: the expression tree and its constructors
--   Ir/Render              eqgen/ir/render.py: the text of an expression; Types and Engines are the
--                          spellings in eqgen/dialects (duckdb and sqlite emitter.py, types_sql.py)
--   Config/Weighted        eqgen/config/weighted.py: the weighted shuffle
--   Equivalence/Ast        eqgen/equivalence/ast.py: sources, queries and named relations
--   Equivalence/Constraints  eqgen/equivalence/constraints.py, eqgen/builder/constraint_set.py
--   Equivalence/Context    eqgen/equivalence/context.py, eqgen/builder/context.py: a run's state
--   Equivalence/Names      the names that eqgen/equivalence/context.py hands out
--   Equivalence/Builders   eqgen/equivalence/builders: one function for each builder's `_build`
--   Equivalence/Steps      eqgen/equivalence/objects.py and actions.py: the setup steps of a relation
--   Equivalence/Emitter    eqgen/equivalence/emitter.py: their texts, and the walk over the tree
--   Equivalence/Factory    eqgen/builder/builder.py, weighted_factory.py and interfaces.py, and
--                          eqgen/equivalence/factory.py and generator.py: filtering the builders,
--                          ordering them and running them until one builds
--   Fuzz/Multiset, Verdict and Objects
--                          eqgen/fuzz/database.py (the comparison of rows) and compare.py
--   Fuzz/Journal           eqgen/fuzz/journal.py: the log of a round, written and read back
--   Fuzz/Catalogs, Samples eqgen/fuzz/journal.py: the base table of a round, and its rows
--   Fuzz/Literals          `literal` of the adapters in eqgen/dialects, for the values of these rows
--   Fuzz/Floats            the `float` that eqgen/fuzz/schedule.py and round.py count time in
--   Fuzz/Schedule          eqgen/fuzz/schedule.py, and scheduler_from_args of eqgen/fuzz/cli.py
--   Fuzz/Sweep             eqgen/fuzz/sweep.py: one builder on its own, over many seeds
--   Fuzz/Outcome and Round eqgen/fuzz/round.py: one round, from the generated tree to its outcome
-- Sql states what the program relies on of an engine, which is not part of it: `Engine` gives a
-- value to each expression and `Executor` gives rows to each clause, each with the standard's laws
-- as named fields; Sql/Denotation runs a tree's statements. Sql/Reference and Sql/Clauses are one
-- concrete engine that keeps all the laws. Equivalence/Contract holds the proofs: `Yields` says
-- what every returned value satisfies, `Meets` is what a builder relies on of the factory, and
-- `Steady` follows depth and fuel.
--
-- How state is modelled: a build is a function from the run's context to an outcome (a value, no
-- value, or an exception) and the context after it (`Gen`). Random numbers and the clock are
-- streams that the run is given. A builder calls the factory through `Ask`, a record of the three
-- requests that the builders make. The factory's recursion is on fuel; one level more than the
-- configured depth limit is enough, since no builder runs at the limit. A base row is a list of
-- named values, and rows are compared up to permutation. The key that the shuffle takes from the
-- logarithm of a random number, the tolerance between two rows, and the order of a report are
-- parameters. A text that a plugin writes is a condition of which nothing is known.
--
-- The emitter and the measure of a tree walk shared nodes: a `Heap` gives each node an id and the ids
-- of its inputs. The walk of the emitter is on fuel, for which the id of the root plus one is enough;
-- the loop of the measure takes `steps_for` steps. Times, scores and clock readings are
-- Python's floats: `Floats` holds their operations and `Rounds` what IEEE 754 says of them, at which
-- Fuzz/Floats/Milli is one instance. A round is a function of the child's messages
-- (`Child`: what it says when it has built the databases, and its reply to the i-th query), of the
-- readings of the clock and of the texts that it only prints (`Printing`). A journal is the text of
-- its file. What `random.Random` chooses from a pool is a function of row and column. How an
-- engine reads a string literal is stated once, as the standard and ClickHouse document it.
--
-- Not modelled: the builders that use a row key, a tag, a window or a join other than the empty one,
-- the queries and objects of one dialect, the plugins, the reports of the harness, and the
-- evaluation tools. Connections, drivers and the child process itself are outside.
mod Base
pub mod Core
pub mod Ir
pub mod Config
pub mod Sql
pub mod Equivalence
pub mod Fuzz
