-- ===== src/Physical/Partitions.antt =====
-- What a transformation does to the partitions of the data sources in a plan.
use octosql.Base.{◌≡◌, refl, []}
use octosql.Physical.Nodes.{
  PlanExpression, star_expression, variable, tuple_expression, node_expression, logic_expression,
  aliased_expression, record_expression, function_expression, PlanExpressions, no_expressions,
  more_expressions, PlanFormula, constant_formula, and_formula, or_formula, not_formula,
  predicate_formula, PlanNode, requalifier, filter, map_node, data_source_builder, Transformers,
  transform_expression, transform_all, transform_formula, transform_node,
}

-- All builders in a plan read the partition 0, and their cardinality is not known.
abbrev mutual
  pub ReadsFirst : PlanNode → Type 0
  ReadsFirst (requalifier q n) = ReadsFirst n
  ReadsFirst (filter f n) = FormulaReadsFirst f × ReadsFirst n
  ReadsFirst (map_node es n keep) = AllReadFirst es × ReadsFirst n
  ReadsFirst (data_source_builder ds f) =
      (ds.partition ≡ 0) × (ds.cardinality ≡ []) × FormulaReadsFirst f

  FormulaReadsFirst : PlanFormula → Type 0
  FormulaReadsFirst (constant_formula b) = Unit
  FormulaReadsFirst (and_formula f g) = FormulaReadsFirst f × FormulaReadsFirst g
  FormulaReadsFirst (or_formula f g) = FormulaReadsFirst f × FormulaReadsFirst g
  FormulaReadsFirst (not_formula f) = FormulaReadsFirst f
  FormulaReadsFirst (predicate_formula e r e') = ExpressionReadsFirst e × ExpressionReadsFirst e'

  ExpressionReadsFirst : PlanExpression → Type 0
  ExpressionReadsFirst (star_expression q) = Unit
  ExpressionReadsFirst (variable name) = Unit
  ExpressionReadsFirst (tuple_expression es) = AllReadFirst es
  ExpressionReadsFirst (node_expression n) = ReadsFirst n
  ExpressionReadsFirst (logic_expression f) = FormulaReadsFirst f
  ExpressionReadsFirst (aliased_expression name e) = ExpressionReadsFirst e
  ExpressionReadsFirst record_expression = Unit
  ExpressionReadsFirst (function_expression name es) = AllReadFirst es

  AllReadFirst : PlanExpressions → Type 0
  AllReadFirst no_expressions = Unit
  AllReadFirst (more_expressions e es) = ExpressionReadsFirst e × AllReadFirst es

-- The transformers of a plan in which nothing is to be changed.
abbrev pub no_transformers : Transformers
no_transformers = record { node_t = λ n. n; named_expr_t = λ e. e }

mutual
  node_forgets : (n : PlanNode) → ReadsFirst (transform_node no_transformers n)
  node_forgets (requalifier q n) = node_forgets n
  node_forgets (filter f n) = (formula_forgets f, node_forgets n)
  node_forgets (map_node es n keep) = (all_forget es, node_forgets n)
  node_forgets (data_source_builder ds f) = (refl, refl, formula_forgets f)

  formula_forgets : (f : PlanFormula) → FormulaReadsFirst (transform_formula no_transformers f)
  formula_forgets (constant_formula b) = tt
  formula_forgets (and_formula f g) = (formula_forgets f, formula_forgets g)
  formula_forgets (or_formula f g) = (formula_forgets f, formula_forgets g)
  formula_forgets (not_formula f) = formula_forgets f
  formula_forgets (predicate_formula e r e') = (expression_forgets e, expression_forgets e')

  expression_forgets :
      (e : PlanExpression) → ExpressionReadsFirst (transform_expression no_transformers e)
  expression_forgets (star_expression q) = tt
  expression_forgets (variable name) = tt
  expression_forgets (tuple_expression es) = all_forget es
  expression_forgets (node_expression n) = node_forgets n
  expression_forgets (logic_expression f) = formula_forgets f
  expression_forgets (aliased_expression name e) = expression_forgets e
  expression_forgets record_expression = tt
  expression_forgets (function_expression name es) = all_forget es

  all_forget : (es : PlanExpressions) → AllReadFirst (transform_all no_transformers es)
  all_forget no_expressions = tt
  all_forget (more_expressions e es) = (expression_forgets e, all_forget es)

-- A transformation that is to change nothing lets every data source in the plan, those of its
-- subqueries too, read the partition 0, and drops its cardinality.
pub transform_node-ReadsFirst : (n : PlanNode) → ReadsFirst (transform_node no_transformers n)
transform_node-ReadsFirst n = node_forgets n
