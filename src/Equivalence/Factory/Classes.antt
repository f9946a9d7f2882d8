-- ===== src/Equivalence/Factory/Classes.antt =====
-- The registered builders that the development models, with what each declares of itself: its
-- result type, the constraints that it supports and requires, and whether it is a leaf.
use coa.Base.{Bool, true, false, List, [], ◌∷◌, Option, none, some}
use coa.Base.Text.{Text, codes}
use coa.Ir.Expr.{ValueCodec, hex, base64, json_pack}
use coa.Equivalence.Ast.{
  CreateKind, view, temporary_view, materialized_view, table, temporary_table, unlogged_table,
}
use coa.Equivalence.Constraints.{ConstraintType, row_filters, dml, single, rewrites, exposed}

pub data BuilderClass : Type 0 where
  create : CreateKind → BuilderClass
  delete_reinsert noop_update select_star explicit_projection : BuilderClass
  cte : Option Bool → BuilderClass
  lateral_reproject add_drop_column projection_query ordered_scan : BuilderClass
  partition_union tlp_partition_union union_empty except_empty intersect_self : BuilderClass
  uniform_codecs : ValueCodec → BuilderClass
  mixed_codec eet_case_column eet_determined_filter left_join_empty base_source : BuilderClass

-- what `build_subtree` is asked for; a relation is also a source
pub data Kind : Type 0 where
  sources relations queries : Kind

-- `result_type`
unfoldable pub result_type : BuilderClass → Kind
result_type (create k) = relations
result_type delete_reinsert = relations
result_type noop_update = relations
result_type base_source = sources
result_type _ = queries

-- `issubclass(rt, type)`
abbrev pub is_subclass : Kind → Kind → Bool
is_subclass relations relations = true
is_subclass relations sources = true
is_subclass sources sources = true
is_subclass queries queries = true
is_subclass _ _ = false

-- the two lists of `CreateFromQueryBuilder`
abbrev create_supported : CreateKind → List ConstraintType
create_supported table = row_filters ∷ rewrites ∷ dml ∷ exposed ∷ []
create_supported temporary_table = row_filters ∷ rewrites ∷ dml ∷ exposed ∷ []
create_supported unlogged_table = row_filters ∷ rewrites ∷ dml ∷ exposed ∷ []
create_supported _ = row_filters ∷ rewrites ∷ exposed ∷ []

-- `supported_constraint_types`
unfoldable pub supported_constraint_types : BuilderClass → List ConstraintType
supported_constraint_types (create k) = create_supported k
supported_constraint_types delete_reinsert = dml ∷ exposed ∷ []
supported_constraint_types noop_update = dml ∷ exposed ∷ []
supported_constraint_types select_star = row_filters ∷ single ∷ []
supported_constraint_types explicit_projection = row_filters ∷ single ∷ []
supported_constraint_types (cte hint) = row_filters ∷ single ∷ []
supported_constraint_types projection_query = rewrites ∷ row_filters ∷ single ∷ []
supported_constraint_types partition_union = row_filters ∷ []
supported_constraint_types tlp_partition_union = row_filters ∷ []
supported_constraint_types eet_determined_filter = row_filters ∷ single ∷ []
supported_constraint_types base_source = single ∷ []
supported_constraint_types _ = []

-- `required_constraint_types`
unfoldable pub required_constraint_types : BuilderClass → List ConstraintType
required_constraint_types projection_query = rewrites ∷ []
required_constraint_types _ = []

-- `is_leaf`
unfoldable pub is_leaf : BuilderClass → Bool
is_leaf base_source = true
is_leaf _ = false

-- the class's name, by which weights are given and choices are counted
unfoldable pub class_name : BuilderClass → Text
class_name (create view) = codes "CreateViewBuilder"
class_name (create table) = codes "CreateTableBuilder"
class_name (create temporary_view) = codes "CreateTemporaryViewBuilder"
class_name (create temporary_table) = codes "CreateTemporaryTableBuilder"
class_name (create materialized_view) = codes "CreateMaterializedViewBuilder"
class_name (create unlogged_table) = codes "CreateUnloggedTableBuilder"
class_name delete_reinsert = codes "DeleteReinsertTableBuilder"
class_name noop_update = codes "NoopUpdateTableBuilder"
class_name select_star = codes "SelectStarQueryBuilder"
class_name explicit_projection = codes "ExplicitProjectionQueryBuilder"
class_name (cte none) = codes "CteQueryBuilder"
class_name (cte (some true)) = codes "MaterializedCteQueryBuilder"
class_name (cte (some false)) = codes "NotMaterializedCteQueryBuilder"
class_name lateral_reproject = codes "LateralReprojectQueryBuilder"
class_name add_drop_column = codes "AddDropColumnQueryBuilder"
class_name projection_query = codes "ProjectionQueryBuilder"
class_name ordered_scan = codes "OrderedScanQueryBuilder"
class_name partition_union = codes "PartitionUnionQueryBuilder"
class_name tlp_partition_union = codes "TlpPartitionUnionQueryBuilder"
class_name union_empty = codes "UnionEmptyRoundTripBuilder"
class_name except_empty = codes "ExceptEmptyRoundTripBuilder"
class_name intersect_self = codes "IntersectSelfRoundTripBuilder"
class_name (uniform_codecs hex) = codes "HexCodecRoundTripBuilder"
class_name (uniform_codecs base64) = codes "Base64CodecRoundTripBuilder"
class_name (uniform_codecs json_pack) = codes "JsonPackCodecRoundTripBuilder"
class_name mixed_codec = codes "MixedCodecRoundTripBuilder"
class_name eet_case_column = codes "EetCaseColumnQueryBuilder"
class_name eet_determined_filter = codes "EetDeterminedFilterQueryBuilder"
class_name left_join_empty = codes "LeftJoinEmptyQueryBuilder"
class_name base_source = codes "BaseTableSourceBuilder"
