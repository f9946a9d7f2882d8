-- ===== src/Equivalence/Contract/Tests.antt =====
-- A base table of two columns and three rows, one of them with a NULL key, a factory with every
-- builder, and the theorems of the contract applied to them.
use coa.Base.{ℕ, suc, ◌*◌, ◌%◌, true, false, Option, none, some, List, [], ◌∷◌, ◌≡◌, refl, arith}
use coa.Base.Text.{Text, codes, text_eq, text_eq-apart}
use coa.Core.Types.{integer, text, plain}
use coa.Core.Catalog.{Table, Column, signature}
use coa.Ir.Expr.{ValueCodec, hex, json_pack, col, eq, int_lit}
use coa.Equivalence.Ast.{materialized_name, view, table, materialized_view}
use coa.Equivalence.Constraints.{
  ConstraintSet, row_filter, exposed_name, accepts_dml, column_rewrite, current_filter,
  get_optional_constraint, type_of, same_type,
}
use coa.Equivalence.Context.{Context, Environment}
use coa.Equivalence.Builders.Base.{Ask}
use coa.Equivalence.Factory.Classes.{
  BuilderClass, create, delete_reinsert, noop_update, select_star, explicit_projection, cte,
  lateral_reproject, add_drop_column, projection_query, ordered_scan, partition_union,
  tlp_partition_union, union_empty, except_empty, intersect_self, uniform_codecs, mixed_codec,
  eet_case_column, eet_determined_filter, left_join_empty, base_source, queries,
}
use coa.Equivalence.Factory.Dispatch.{Factory, asking, build_subtree, generate}
use coa.Equivalence.Contract.Promise.{BaseTable, Meets, HoldsQuery, HoldsRelation, projection}
use coa.Equivalence.Contract.Rewrites.{
  Lossless, build_eet_case-Holds, build_eet_filter-Holds, build_uniform_codec-Holds,
  build_mixed_codec-Holds,
}
use coa.Equivalence.Contract.Nodes.{HoldsNode}
use coa.Equivalence.Contract.Tree.{asking-Meets, build_subtree-HoldsNode}
use coa.Equivalence.Contract.Yields.{Yields}
use coa.Equivalence.Contract.Checked.{MeetsAll, build_subtree-MeetsAll, generate-name}
use coa.Equivalence.Contract.Steady.{Steady}
use coa.Equivalence.Contract.Termination.{generate-Steady}
use coa.Equivalence.Contract.Generation.{Ends, IsEquivalent, generate-IsEquivalent}
use coa.Equivalence.Contract.Splits.{build_partition_union-Holds, build_tlp_partition_union-Holds}
use coa.Equivalence.Contract.Empty.{
  build_except_empty-Holds, build_intersect_self-Holds, build_left_join_empty-Holds,
}
use coa.Equivalence.Contract.Selects.{build_select_star-Holds, build_explicit_projection-Holds}
use coa.Equivalence.Contract.Creations.{build_create-Holds}
use coa.Equivalence.Contract.Writes.{build_delete_reinsert-Holds, build_noop_update-Holds}
use coa.Equivalence.Contract.Wider.{build_add_drop_column-Holds}
use coa.Equivalence.Builders.Creates.{build_create, build_delete_reinsert, build_noop_update}
use coa.Equivalence.Builders.Selects.{
  build_select_star, build_explicit_projection, build_add_drop_column, build_left_join_empty,
}
use coa.Equivalence.Builders.Partitioning.{
  build_partition_union, build_tlp_partition_union, build_except_empty, build_intersect_self,
}
use coa.Equivalence.Builders.Rewrites.{
  build_eet_case, build_eet_filter, build_uniform_codec, build_mixed_codec,
}
use coa.Sql.Reference.{Number, reference, value_at}
use coa.Sql.Clauses.{reference_executor}
use coa.Sql.Executor.{Row}

abbrev key_column : Column
key_column = record { name = codes "k"; data_type = plain integer; position = 1; nullable = true }

abbrev text_column : Column
text_column = record { name = codes "s"; data_type = plain text; position = 2; nullable = true }

abbrev base_table : Table
base_table = record { name = codes "t"; columns = key_column ∷ text_column ∷ []; schema = none }

-- a plugin that offers the key column itself as a condition, and now and then declines
abbrev some_plugin : ℕ → Option Text
some_plugin seed = some (codes "k")

abbrev environment : Environment
environment = record {
  base_table = base_table;
  predicate_source = some (codes "plugin", some_plugin);
  is_random_key = λ n. false;
  draw = λ i. suc i;
  past_deadline = λ t. false;
  max_depth = 4;
  max_nodes = 0;
  max_attempts = 0;
}

abbrev every_builder : List BuilderClass
every_builder =
    create view
    ∷ create table
    ∷ create materialized_view
    ∷ delete_reinsert
    ∷ noop_update
    ∷ select_star
    ∷ explicit_projection
    ∷ cte none
    ∷ lateral_reproject
    ∷ add_drop_column
    ∷ projection_query
    ∷ ordered_scan
    ∷ partition_union
    ∷ tlp_partition_union
    ∷ union_empty
    ∷ except_empty
    ∷ intersect_self
    ∷ uniform_codecs hex
    ∷ mixed_codec
    ∷ eet_case_column
    ∷ eet_determined_filter
    ∷ left_join_empty
    ∷ base_source
    ∷ []

abbrev factory : Factory
factory = record {
  builders = every_builder;
  builder_weights = λ b. 1;
  root_builder_weights = none;
  race = λ u w. (u * 7) % 23;
}

abbrev row_of : Option ℕ → Option ℕ → List (Text × Number)
row_of k s = (codes "k", k) ∷ (codes "s", s) ∷ []

unfoldable base_rows : List (Row reference)
unfolding reference
base_rows = row_of (some 2) (some 5) ∷ row_of (some 3) none ∷ row_of none (some 7) ∷ []

base_rows-BaseTable : BaseTable reference_executor environment base_rows
unfolding base_rows reference signature text_eq
base_rows-BaseTable = record {
  distinct = ((text_eq-apart (codes "s") (codes "k") refl, tt), (tt, tt));
  labelled = (refl, (refl, (refl, tt)));
}

abbrev start : Context
start = record {
  depth = 0;
  node_count = 0;
  nodes_attempted = 0;
  counters = [];
  predicate_origin = [];
  chosen = [];
  draws = 0;
  clock = 0;
}

reference-Lossless : (codec : ValueCodec) → Lossless reference codec
unfolding reference value_at
reference-Lossless codec = record { gives_back = λ r c t n. refl }

abbrev asks : Ask
asks = asking (build_subtree environment factory 3)

asks-Meets : Meets reference_executor environment base_rows asks
asks-Meets =
    asking-Meets reference_executor environment base_rows base_rows-BaseTable reference-Lossless
      (build_subtree environment factory 3)
      (build_subtree-HoldsNode reference_executor environment base_rows base_rows-BaseTable
        reference-Lossless factory 3)

generate-IsEquivalent_example :
    Ends
      (IsEquivalent reference_executor environment base_rows)
      (generate environment factory 6 (codes "t") start).0
generate-IsEquivalent_example =
    generate-IsEquivalent reference_executor environment base_rows factory 6 (codes "t") start
      base_rows-BaseTable reference-Lossless (omega arith) refl

generate-Steady_example : Steady 0 (generate environment factory 5 (codes "t"))
generate-Steady_example = generate-Steady environment factory 5 (codes "t") (omega arith)

abbrev filtered_set : ConstraintSet
filtered_set = row_filter (eq (col (codes "k") (plain integer)) (int_lit 2)) ∷ []

build_subtree-HoldsNode_example :
    Yields
      (HoldsNode reference_executor environment base_rows filtered_set)
      (build_subtree environment factory 3 queries filtered_set)
build_subtree-HoldsNode_example =
    build_subtree-HoldsNode reference_executor environment base_rows base_rows-BaseTable
      reference-Lossless factory 3 queries filtered_set

no_rewrites : projection filtered_set ≡ none
unfolding projection get_optional_constraint type_of same_type
no_rewrites = refl

abbrev dml_set : ConstraintSet
dml_set = accepts_dml ∷ exposed_name (codes "t") ∷ []

dml_unfiltered : current_filter dml_set ≡ none
unfolding current_filter get_optional_constraint type_of same_type
dml_unfiltered = refl

dml_unprojected : projection dml_set ≡ none
unfolding projection get_optional_constraint type_of same_type
dml_unprojected = refl

abbrev projected_set : ConstraintSet
projected_set =
    column_rewrite (
      record {
        alias = codes "k";
        expression = col (codes "k") (plain integer);
        item_type = plain integer;
      }
      ∷ [])
    ∷ filtered_set

build_tlp_partition_union-Holds_example :
    Yields
      (HoldsQuery reference_executor environment base_rows filtered_set)
      (build_tlp_partition_union environment asks filtered_set)
build_tlp_partition_union-Holds_example =
    build_tlp_partition_union-Holds reference_executor environment base_rows asks asks-Meets
      filtered_set no_rewrites

build_partition_union-Holds_example :
    Yields
      (HoldsQuery reference_executor environment base_rows filtered_set)
      (build_partition_union environment asks filtered_set)
build_partition_union-Holds_example =
    build_partition_union-Holds reference_executor environment base_rows asks asks-Meets
      filtered_set no_rewrites

build_left_join_empty-Holds_example :
    Yields
      (HoldsQuery reference_executor environment base_rows [])
      (build_left_join_empty environment asks)
build_left_join_empty-Holds_example =
    build_left_join_empty-Holds reference_executor environment base_rows asks asks-Meets
      base_rows-BaseTable

build_intersect_self-Holds_example :
    Yields (HoldsQuery reference_executor environment base_rows []) (build_intersect_self asks)
build_intersect_self-Holds_example =
    build_intersect_self-Holds reference_executor environment base_rows asks asks-Meets

build_except_empty-Holds_example :
    Yields (HoldsQuery reference_executor environment base_rows []) (build_except_empty asks)
build_except_empty-Holds_example =
    build_except_empty-Holds reference_executor environment base_rows asks asks-Meets

build_eet_filter-Holds_example :
    Yields
      (HoldsQuery reference_executor environment base_rows filtered_set)
      (build_eet_filter environment asks filtered_set)
build_eet_filter-Holds_example =
    build_eet_filter-Holds reference_executor environment base_rows asks base_rows-BaseTable
      asks-Meets filtered_set no_rewrites

build_eet_case-Holds_example :
    Yields
      (HoldsQuery reference_executor environment base_rows [])
      (build_eet_case environment asks)
build_eet_case-Holds_example =
    build_eet_case-Holds reference_executor environment base_rows asks base_rows-BaseTable
      asks-Meets

build_uniform_codec-Holds_example :
    Yields
      (HoldsQuery reference_executor environment base_rows [])
      (build_uniform_codec environment hex asks)
build_uniform_codec-Holds_example =
    build_uniform_codec-Holds reference_executor environment base_rows asks base_rows-BaseTable
      asks-Meets hex (reference-Lossless hex)

build_mixed_codec-Holds_example :
    Yields
      (HoldsQuery reference_executor environment base_rows [])
      (build_mixed_codec environment asks)
build_mixed_codec-Holds_example =
    build_mixed_codec-Holds reference_executor environment base_rows asks base_rows-BaseTable
      asks-Meets (reference-Lossless hex) (reference-Lossless json_pack)

build_create-Holds_example :
    Yields
      (HoldsRelation reference_executor environment base_rows filtered_set)
      (build_create environment materialized_view asks filtered_set)
build_create-Holds_example =
    build_create-Holds reference_executor environment base_rows asks asks-Meets materialized_view
      filtered_set

build_delete_reinsert-Holds_example :
    Yields
      (HoldsRelation reference_executor environment base_rows dml_set)
      (build_delete_reinsert environment asks dml_set)
build_delete_reinsert-Holds_example =
    build_delete_reinsert-Holds reference_executor environment base_rows asks asks-Meets dml_set
      base_rows-BaseTable dml_unfiltered dml_unprojected

build_noop_update-Holds_example :
    Yields
      (HoldsRelation reference_executor environment base_rows dml_set)
      (build_noop_update environment asks dml_set)
build_noop_update-Holds_example =
    build_noop_update-Holds reference_executor environment base_rows asks asks-Meets dml_set
      base_rows-BaseTable dml_unfiltered dml_unprojected

build_add_drop_column-Holds_example :
    Yields
      (HoldsQuery reference_executor environment base_rows [])
      (build_add_drop_column environment asks)
build_add_drop_column-Holds_example =
    build_add_drop_column-Holds reference_executor environment base_rows asks base_rows-BaseTable
      asks-Meets

build_explicit_projection-Holds_example :
    Yields
      (HoldsQuery reference_executor environment base_rows filtered_set)
      (build_explicit_projection environment asks filtered_set)
build_explicit_projection-Holds_example =
    build_explicit_projection-Holds reference_executor environment base_rows asks filtered_set
      base_rows-BaseTable asks-Meets no_rewrites

build_select_star-Holds_example :
    Yields
      (HoldsQuery reference_executor environment base_rows filtered_set)
      (build_select_star asks filtered_set)
build_select_star-Holds_example =
    build_select_star-Holds reference_executor environment base_rows asks filtered_set asks-Meets
      no_rewrites

build_subtree-MeetsAll_example :
    Yields (MeetsAll filtered_set) (build_subtree environment factory 3 queries filtered_set)
build_subtree-MeetsAll_example = build_subtree-MeetsAll environment factory 3 queries filtered_set

generate-name_example :
    Yields (λ r. materialized_name r ≡ codes "t") (generate environment factory 6 (codes "t"))
generate-name_example = generate-name environment factory 6 (codes "t")
