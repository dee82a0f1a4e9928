-- ===== src/Physical/Tests.antt =====
-- Applications of the theorems on plans. An environment is the value of the variable `t.x`; all other
-- variables are 3.
use octosql.Base.{
  ℕ, ◌≡◌, refl, true, false, [], ◌∷◌, Bytes, bytes_equal, Outcome, ok, err, not_found,
  if◌then◌else◌, ◌==◌,
}
use octosql.Value.{int}
use octosql.Expression.Relation.{more_than, apply_relation}
use octosql.Expression.Formula.{Expression}
use octosql.Physical.Names.{variable_source}
use octosql.Physical.Nodes.{
  DataSource, rebuilt, PlanExpression, variable, PlanFormula, constant_formula, and_formula,
  predicate_formula, PlanNode, filter, data_source_builder, transform_node,
}
use octosql.Physical.Optimizer.{merge_filters, merge_builder_with_filter}
use octosql.Physical.Meaning.{Execution, passes, formula_value, materialize_formula}
use octosql.Physical.OptimizerLaws.{
  AppliesOffered, and_joins, merge_builder_with_filter-passes, merge_filters-passes,
}
use octosql.Physical.Partitions.{no_transformers, ReadsFirst, transform_node-ReadsFirst}

abbrev local_name : Bytes
local_name = 116 ∷ 46 ∷ 120 ∷ []

abbrev value_of : PlanExpression → Outcome (Expression ℕ)
value_of (variable name) = ok (λ env. ok (if bytes_equal name local_name then int env else int 3))
value_of _ = err not_found

-- Without data sources.
abbrev no_sources : Execution
no_sources = record {
  Env = ℕ;
  libraries = record {
    are_equal = λ v w. true;
    valid_time = λ s n. true;
    match_string = λ p s. ok true;
  };
  materialize_expression = value_of;
  source_delivers = λ name alias partition f env. err not_found;
  delivers = λ n env. ok true;
}

-- A data source delivers what satisfies its filter, from its partition 0.
abbrev execution : Execution
execution = record no_sources {
  source_delivers = λ name alias partition f env.
      if partition == 0 then formula_value no_sources f env else ok false;
}

-- `t.x > const_0`.
abbrev above : PlanFormula
above =
    predicate_formula (variable local_name) more_than
      (variable (99 ∷ 111 ∷ 110 ∷ 115 ∷ 116 ∷ 95 ∷ 48 ∷ []))

abbrev table : DataSource
table = record {
  primary_keys = [];
  supports_primary = λ r. false;
  supports_secondary = λ r. true;
  source_name = 116 ∷ [];
  alias = 116 ∷ [];
  partition = 0;
  cardinality = [];
}

abbrev parent : PlanFormula
parent = and_formula (constant_formula true) above

table-AppliesOffered : AppliesOffered execution 5 table
unfolding formula_value materialize_formula
table-AppliesOffered g f c d offered hg hf = and_joins no_sources 5 g f c d hg hf

merge_builder_with_filter-passes_example :
    passes execution
      (filter
        (constant_formula true)
        (data_source_builder (rebuilt table) (and_formula above (constant_formula true))))
      5
    ≡ passes execution (filter parent (data_source_builder table (constant_formula true))) 5
unfolding merge_builder_with_filter formula_value variable_source apply_relation passes
merge_builder_with_filter-passes_example =
    merge_builder_with_filter-passes execution 5 parent table (constant_formula true)
      (filter (constant_formula true)
        (data_source_builder (rebuilt table) (and_formula above (constant_formula true))))
      true true table-AppliesOffered refl refl refl refl

abbrev twice_filtered : PlanNode
twice_filtered =
    filter above
      (filter (constant_formula true) (data_source_builder table (constant_formula true)))

merge_filters-passes_example : passes execution twice_filtered 5 ≡ ok true
unfolding merge_filters formula_value variable_source apply_relation passes
merge_filters-passes_example =
    merge_filters-passes execution 5 twice_filtered
      (filter (and_formula above (constant_formula true))
        (data_source_builder table (constant_formula true)))
      true refl refl

transform_node-ReadsFirst_example :
    ReadsFirst (transform_node no_transformers (data_source_builder table (constant_formula true)))
transform_node-ReadsFirst_example =
    transform_node-ReadsFirst (data_source_builder table (constant_formula true))
