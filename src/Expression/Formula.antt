-- ===== src/Expression/Formula.antt =====
-- execution/logic.go: formulas and their evaluation. An expression is what it evaluates to under the
-- variables: a function of the environment, which may fail.
use octosql.Base.{Bool, true, false, if◌then◌else◌, not, ◌&&◌, ◌||◌, Outcome, ok, ◌>>=◌}
use octosql.Value.{Value}
use octosql.Expression.Relation.{Libraries, Relation, apply_relation}

module _ (Env : Type 0) where
  abbrev pub Expression : Type 0
  Expression = Env → Outcome Value

  pub data Formula : Type 0 where
    constant : Bool → Formula
    conjunction : Formula → Formula → Formula
    disjunction : Formula → Formula → Formula
    negation : Formula → Formula
    predicate : Expression → Relation → Expression → Formula

-- `LessThan` asks `MoreThan` about the exchanged operands, and `GreaterEqual` asks `LessThan`.
abbrev is_exchanged : Relation → Bool
is_exchanged Relation.less_than = true
is_exchanged Relation.greater_equal = true
is_exchanged _ = false

-- `Apply` evaluates the left operand, then the right one; of exchanged operands the right one first.
unfoldable pub apply_operands :
    {Env : Type 0} → Libraries → Env → Relation → Expression Env → Expression Env → Outcome Bool
apply_operands lib env r left right =
    if is_exchanged r
    then (do w ← right env; v ← left env; apply_relation lib r v w)
    else (do v ← left env; w ← right env; apply_relation lib r v w)

unfoldable pub evaluate : {Env : Type 0} → Libraries → Env → Formula Env → Outcome Bool
unfolding apply_operands
evaluate lib env (constant b) = ok b
evaluate lib env (conjunction f g) = do
  left ← evaluate lib env f
  right ← evaluate lib env g
  ok (left && right)
evaluate lib env (disjunction f g) = do
  left ← evaluate lib env f
  right ← evaluate lib env g
  ok (left || right)
evaluate lib env (negation f) = do child ← evaluate lib env f; ok (not child)
evaluate lib env (predicate left r right) = apply_operands lib env r left right
