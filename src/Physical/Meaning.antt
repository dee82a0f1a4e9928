-- ===== src/Physical/Meaning.antt =====
-- What a plan is materialized to: formulas (physical/logic.go, `Materialize`), and which records pass
-- its filters (execution/filter.go).
use octosql.Base.{ℕ, Bool, false, Bytes, Outcome, ok, ◌>>=◌, if◌then◌else◌}
use octosql.Expression.Relation.{Libraries}
use octosql.Expression.Formula.{
  Expression, Formula, constant, conjunction, disjunction, negation, predicate, evaluate,
}
use octosql.Physical.Nodes.{
  PlanExpression, PlanFormula, constant_formula, and_formula, or_formula, not_formula,
  predicate_formula, PlanNode, filter, data_source_builder,
}

-- The variables under which a formula is evaluated, what expressions are materialized to, which
-- records a data source delivers, and which the other nodes.
pub record Execution : Type 1 where
  pub Env : Type 0
  pub libraries : Libraries
  pub materialize_expression : PlanExpression → Outcome (Expression Env)
  -- Of the data source that is materialized with a name, an alias, a partition and a filter.
  pub source_delivers : Bytes → Bytes → ℕ → PlanFormula → Env → Outcome Bool
  pub delivers : PlanNode → Env → Outcome Bool

module _ (x : Execution) where
  -- The relations of plans and of formulas have the same names.
  unfoldable pub materialize_formula : PlanFormula → Outcome (Formula x.Env)
  materialize_formula (constant_formula b) = ok (constant b)
  materialize_formula (and_formula left right) = do
    f ← materialize_formula left
    g ← materialize_formula right
    ok (conjunction f g)
  materialize_formula (or_formula left right) = do
    f ← materialize_formula left
    g ← materialize_formula right
    ok (disjunction f g)
  materialize_formula (not_formula child) = do f ← materialize_formula child; ok (negation f)
  materialize_formula (predicate_formula left r right) = do
    e ← x.materialize_expression left
    e' ← x.materialize_expression right
    ok (predicate e r e')

  unfoldable pub formula_value : PlanFormula → x.Env → Outcome Bool
  unfolding materialize_formula evaluate
  formula_value f env = do g ← materialize_formula f; evaluate x.libraries env g

  -- Whether a record comes out of a node: a filter asks its formula about the records that its source
  -- delivers, and a builder is materialized with its name, its alias, its partition and its filter.
  unfoldable pub passes : PlanNode → x.Env → Outcome Bool
  unfolding formula_value
  passes (filter f source) env = do
    delivered ← passes source env
    if delivered then formula_value f env else ok false
  passes (data_source_builder ds f) env =
      x.source_delivers ds.source_name ds.alias ds.partition f env
  passes n env = x.delivers n env
