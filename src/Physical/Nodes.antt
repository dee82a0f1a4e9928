-- ===== src/Physical/Nodes.antt =====
-- physical: the expressions and formulas of a plan, and the nodes that the optimizer rewrites:
-- requalifiers, filters, maps and builders of data sources (the other nodes are left out). The function
-- that materializes a builder is left out too: nothing here calls it.
use octosql.Base.{ℕ, Bool, List, [], ◌∷◌, ◌++◌, Bytes}
use octosql.Expression.Relation.{Relation}

-- A `DataSourceBuilder` without its filter. The maps of filters that it supports, of primary and of
-- secondary fields, are tests of relations.
pub record DataSource : Type 0 where
  pub primary_keys : List Bytes
  pub supports_primary : Relation → Bool
  pub supports_secondary : Relation → Bool
  pub source_name : Bytes
  pub alias : Bytes
  pub partition : ℕ
  pub cardinality : Bytes

-- A data source that is built from the fields that a literal names, without the partition and the
-- cardinality.
abbrev pub rebuilt : DataSource → DataSource
rebuilt ds = record ds { partition = 0; cardinality = [] }

mutual
  pub data PlanExpression : Type 0 where
    star_expression : Bytes → PlanExpression
    variable : Bytes → PlanExpression
    tuple_expression : PlanExpressions → PlanExpression
    node_expression : PlanNode → PlanExpression
    logic_expression : PlanFormula → PlanExpression
    aliased_expression : Bytes → PlanExpression → PlanExpression
    record_expression : PlanExpression
    function_expression : Bytes → PlanExpressions → PlanExpression

  pub data PlanExpressions : Type 0 where
    no_expressions : PlanExpressions
    more_expressions : PlanExpression → PlanExpressions → PlanExpressions

  pub data PlanFormula : Type 0 where
    constant_formula : Bool → PlanFormula
    and_formula or_formula : PlanFormula → PlanFormula → PlanFormula
    not_formula : PlanFormula → PlanFormula
    predicate_formula : PlanExpression → Relation → PlanExpression → PlanFormula

  pub data PlanNode : Type 0 where
    requalifier : Bytes → PlanNode → PlanNode
    filter : PlanFormula → PlanNode → PlanNode
    map_node : PlanExpressions → PlanNode → Bool → PlanNode
    data_source_builder : DataSource → PlanFormula → PlanNode

unfoldable pub split_by_and : PlanFormula → List PlanFormula
split_by_and (and_formula left right) = split_by_and left ++ split_by_and right
split_by_and f = f ∷ []

abbrev pub Predicate : Type 0
Predicate = PlanExpression × Relation × PlanExpression

unfoldable pub extract_predicates : PlanFormula → List Predicate
extract_predicates (constant_formula b) = []
extract_predicates (and_formula left right) = extract_predicates left ++ extract_predicates right
extract_predicates (or_formula left right) = extract_predicates left ++ extract_predicates right
extract_predicates (not_formula child) = extract_predicates child
extract_predicates (predicate_formula left r right) = (left, r, right) ∷ []

-- `GetVariables`: the names of all variables that a transformation passes. The source collects them in
-- a set, whose order is arbitrary; the list has each as often as it is passed.
abbrev mutual
  pub get_variables : PlanExpression → List Bytes
  get_variables (star_expression q) = []
  get_variables (variable name) = name ∷ []
  get_variables (tuple_expression es) = all_variables es
  get_variables (node_expression n) = node_variables n
  get_variables (logic_expression f) = formula_variables f
  get_variables (aliased_expression name e) = get_variables e
  get_variables record_expression = []
  get_variables (function_expression name es) = all_variables es

  pub all_variables : PlanExpressions → List Bytes
  all_variables no_expressions = []
  all_variables (more_expressions e es) = get_variables e ++ all_variables es

  pub formula_variables : PlanFormula → List Bytes
  formula_variables (constant_formula b) = []
  formula_variables (and_formula f g) = formula_variables f ++ formula_variables g
  formula_variables (or_formula f g) = formula_variables f ++ formula_variables g
  formula_variables (not_formula f) = formula_variables f
  formula_variables (predicate_formula e r e') = get_variables e ++ get_variables e'

  pub node_variables : PlanNode → List Bytes
  node_variables (requalifier q n) = node_variables n
  node_variables (filter f n) = formula_variables f ++ node_variables n
  node_variables (map_node es n keep) = all_variables es ++ node_variables n
  node_variables (data_source_builder ds f) = formula_variables f

-- The transformers that the optimizer sets, of nodes and of named expressions; the identity where it
-- sets none.
pub record Transformers : Type 0 where
  pub node_t : PlanNode → PlanNode
  pub named_expr_t : PlanExpression → PlanExpression

-- `Transform` of the expressions, formulas and nodes. A builder is built anew from the fields that its
-- `Transform` names; the partition and the cardinality are not among them.
abbrev mutual
  pub transform_expression : Transformers → PlanExpression → PlanExpression
  transform_expression t (star_expression q) = t.named_expr_t (star_expression q)
  transform_expression t (variable name) = t.named_expr_t (variable name)
  transform_expression t (tuple_expression es) = tuple_expression (transform_all t es)
  transform_expression t (node_expression n) = node_expression (transform_node t n)
  transform_expression t (logic_expression f) = logic_expression (transform_formula t f)
  transform_expression t (aliased_expression name e) =
      t.named_expr_t (aliased_expression name (transform_expression t e))
  transform_expression t record_expression = record_expression
  transform_expression t (function_expression name es) =
      function_expression name (transform_all t es)

  pub transform_all : Transformers → PlanExpressions → PlanExpressions
  transform_all t no_expressions = no_expressions
  transform_all t (more_expressions e es) =
      more_expressions (transform_expression t e) (transform_all t es)

  pub transform_formula : Transformers → PlanFormula → PlanFormula
  transform_formula t (constant_formula b) = constant_formula b
  transform_formula t (and_formula f g) =
      and_formula (transform_formula t f) (transform_formula t g)
  transform_formula t (or_formula f g) = or_formula (transform_formula t f) (transform_formula t g)
  transform_formula t (not_formula f) = not_formula (transform_formula t f)
  transform_formula t (predicate_formula e r e') =
      predicate_formula (transform_expression t e) r (transform_expression t e')

  pub transform_node : Transformers → PlanNode → PlanNode
  transform_node t (requalifier q n) = t.node_t (requalifier q (transform_node t n))
  transform_node t (filter f n) = t.node_t (filter (transform_formula t f) (transform_node t n))
  transform_node t (map_node es n keep) =
      t.node_t (map_node (transform_all t es) (transform_node t n) keep)
  transform_node t (data_source_builder ds f) =
      t.node_t (data_source_builder (rebuilt ds) (transform_formula t f))
