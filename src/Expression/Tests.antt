-- ===== src/Expression/Tests.antt =====
-- Applications of the theorems on relations, formulas and patterns.
use octosql.Base.{true, false, not, ◌≡◌, ◌↔◌, ◌-◌, refl, ok, arith}
use octosql.Base.Int.{word_mod}
use octosql.Value.{
  Value, Values, int, tuple, nil, cons, compare_values, greater_than, as_slice, value_equal,
}
use octosql.Expression.Relation.{Libraries, Relation, apply_relation}
use octosql.Expression.Formula.{Formula, constant, conjunction, predicate, evaluate}
use octosql.Expression.Laws.{
  apply_relation-compare_values, apply_relation-in, evaluate-truth, AnyEqual, AllAnswer, truth,
  is_greater, is_less,
}

-- Values compared by their contents, and a matcher that finds nothing.
abbrev libraries : Libraries
libraries = record {
  are_equal = value_equal;
  valid_time = λ s n. true;
  match_string = λ p t. ok false;
}

apply_relation-compare_values_example :
    (apply_relation libraries Relation.more_than (int 7) (int (word_mod - 3))
      ≡ ok (is_greater greater_than))
    × (apply_relation libraries Relation.less_than (int 7) (int (word_mod - 3))
        ≡ ok (is_less greater_than))
    × (apply_relation libraries Relation.greater_equal (int 7) (int (word_mod - 3))
        ≡ ok (not (is_less greater_than)))
    × (apply_relation libraries Relation.less_equal (int 7) (int (word_mod - 3))
        ≡ ok (not (is_greater greater_than)))
unfolding compare_values
apply_relation-compare_values_example =
    apply_relation-compare_values libraries (int 7) (int (word_mod - 3)) greater_than tt
      (omega arith) (omega arith) tt tt refl

abbrev one_two : Values
one_two = cons (int 1) (cons (int 2) nil)

apply_relation-in_example :
    ((apply_relation libraries Relation.in_list (int 2) (tuple one_two) ≡ ok true)
      ↔ AnyEqual libraries (int 2) (as_slice one_two))
    × ((apply_relation libraries Relation.not_in (int 2) (tuple one_two) ≡ ok true)
        ↔ ¬ AnyEqual libraries (int 2) (as_slice one_two))
apply_relation-in_example = apply_relation-in libraries (int 2) one_two

-- FALSE AND x > 1, with x the environment.
abbrev formula : Formula Value
formula = conjunction (constant false) (predicate (λ x. ok x) Relation.more_than (λ x. ok (int 1)))

evaluate-truth_example :
    (evaluate libraries (int 5) formula ≡ ok false)
    ↔ (AllAnswer libraries (int 5) formula × (truth libraries (int 5) formula ≡ false))
evaluate-truth_example = evaluate-truth libraries (int 5) formula false
