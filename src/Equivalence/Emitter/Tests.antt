-- ===== src/Equivalence/Emitter/Tests.antt =====
-- eqgen/equivalence/emitter.py on a union whose branches read one table.
use coa.Base.{ℕ, zero, suc, ◌<◌, true, none, some, List, [], ◌∷◌, ◌≡◌, refl, All, ◌↔◌, arith}
use mathlib.Core.List.{flat_map}
use coa.Base.Text.{codes, join}
use coa.Base.Decimal.{str}
use coa.Core.Types.{integer, plain}
use coa.Core.Catalog.{Table, get_sql_name, signature}
use coa.Ir.Expr.{ExpressionNode, col, int_lit, eq}
use coa.Ir.Render.{expr, bracketed, is_atomic, column_sql}
use coa.Ir.Render.Engines.{postgres_spelling}
use coa.Equivalence.Ast.{
  no_clauses, view, table, Source, base_table_source, relation_source, select_query,
  union_all_query, lateral_reproject_query, EquivalentRelation, create_from_query, two, EqNode,
  source_node, query_node, materialized_name,
}
use coa.Equivalence.Steps.{steps, ref_sql}
use coa.Equivalence.Emitter.{
  all_of, node_statements, step_sql, query_sql, select_list, clause, key_clause, ordered,
}
use coa.Equivalence.Emitter.Walk.{contains, each, walk, walk_root, Emitted, Reaches}
use coa.Equivalence.Emitter.Statements.{Heap, emit_equivalence, emit_equivalence-Emitted}

abbrev c_int : ExpressionNode
c_int = col (codes "c_int") (plain integer)

abbrev seed : Table
seed = record {
  name = codes "t__base";
  columns =
      record { name = codes "c_int"; data_type = plain integer; position = 1; nullable = true }
      ∷ [];
  schema = none;
}

abbrev base : Source
base = base_table_source seed

abbrev copied : EquivalentRelation
copied = create_from_query (codes "t_table_1") table (select_query base none none no_clauses)

abbrev filtered : EquivalentRelation
filtered =
    create_from_query (codes "t_view_1") view
      (select_query (relation_source copied) none (some (eq c_int (int_lit 1))) no_clauses)

abbrev whole : EquivalentRelation
whole = create_from_query (codes "t") view (union_all_query (two filtered copied))

-- 0 the base, 1 and 2 the copy, 3 and 4 the filtered view, 5 and 6 the union of 4 and 2
abbrev content : ℕ → EqNode
content zero = source_node base
content (suc zero) = query_node (select_query base none none no_clauses)
content (suc (suc zero)) = source_node (relation_source copied)
content (suc (suc (suc zero))) =
    query_node (select_query (relation_source copied) none (some (eq c_int (int_lit 1))) no_clauses)
content (suc (suc (suc (suc zero)))) = source_node (relation_source filtered)
content (suc (suc (suc (suc (suc zero))))) = query_node (union_all_query (two filtered copied))
content _ = source_node (relation_source whole)

abbrev inputs : ℕ → List ℕ
inputs zero = []
inputs (suc (suc (suc (suc (suc zero))))) = 4 ∷ 2 ∷ []
inputs (suc n) = n ∷ []

abbrev heap : Heap
heap = record { content = content; inputs = inputs }

heap_statements :
    emit_equivalence postgres_spelling heap 7 6
    ≡ some (
        codes "CREATE TABLE t_table_1 AS SELECT * FROM t__base"
        ∷ codes "CREATE VIEW t_view_1 AS SELECT * FROM t_table_1 WHERE c_int = 1"
        ∷ codes "CREATE VIEW t AS SELECT * FROM t_view_1 UNION ALL SELECT * FROM t_table_1"
        ∷ [])
unfolding emit_equivalence walk_root walk each node_statements steps step_sql query_sql select_list
    clause key_clause ordered ref_sql get_sql_name materialized_name expr bracketed is_atomic
    column_sql str join
heap_statements = refl

lateral_written :
    query_sql postgres_spelling (lateral_reproject_query base (codes "s") (codes "l"))
    ≡ some (codes "SELECT l.c_int AS c_int FROM t__base s, LATERAL (SELECT s.c_int AS c_int) AS l")
unfolding query_sql ref_sql get_sql_name signature join
lateral_written = refl

inputs_before : (n : ℕ) → All (λ c. c < n) (inputs n)
inputs_before n = ground arith

emit_equivalence-Emitted_example :
    (out : List ℕ) × (emit_equivalence postgres_spelling heap 7 6
      ≡ all_of (flat_map (λ n. node_statements postgres_spelling (content n)) out))
    × Emitted inputs out
    × ((x : ℕ) → (contains x out ≡ true) ↔ Reaches inputs 6 x)
emit_equivalence-Emitted_example =
    emit_equivalence-Emitted postgres_spelling heap 7 6 inputs_before (omega arith)
