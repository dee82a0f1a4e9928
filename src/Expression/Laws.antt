-- ===== src/Expression/Laws.antt =====
-- What the relations of execution/relation.go and the formulas of execution/logic.go promise.
use octosql.Base.{
  ℕ, ◌<◌, ◌≡◌, ◌↔◌, refl, ap, Bool, true, false, not, ◌&&◌, ◌||◌, [], ◌∷◌, List, arith, Outcome, ok,
  ok-injective, sym, ◌∙◌, Bool-cases, inl, inr, bytes_equal_iff,
}
use octosql.Base.Int.{word_mod}
use octosql.Base.ByteOrder.{bytes_less-swap, bytes_less_irrefl}
use octosql.Value.{
  Value, Values, int, float, bool, string, time, tuple, compare_values, Comparison, less_than,
  greater_than, is_nan, float_less, float_equal, decide_comparison, as_slice, InRange,
}
use octosql.Value.Order.{NotNan, is_ok}
use octosql.Expression.Relation.{Libraries, Relation, any_equal, apply_relation}
use octosql.Expression.Formula.{
  Formula, constant, conjunction, disjunction, negation, predicate, evaluate, apply_operands,
}

-- The values that `MoreThan` orders.
abbrev pub IsOrdered : Value → Type 0
IsOrdered (int w) = Unit
IsOrdered (float b) = Unit
IsOrdered (string s) = Unit
IsOrdered (time s n) = Unit
IsOrdered _ = ⊥

abbrev pub is_greater : Comparison → Bool
is_greater greater_than = true
is_greater _ = false

abbrev pub is_less : Comparison → Bool
is_less less_than = true
is_less _ = false

module _ (x y : ℕ) (nx : is_nan x ≡ false) (ny : is_nan y ≡ false) (rx : x < word_mod)
    (ry : y < word_mod) where
  float-greater : float_less y x ≡ is_greater (decide_comparison (float_equal x y) (float_less x y))
  float-greater = ground arith

  float-smaller : float_less x y ≡ is_less (decide_comparison (float_equal x y) (float_less x y))
  float-smaller = ground arith

-- On ints, floats that are no NaN, strings and times, in range, the four order relations are what
-- `Compare` answers: more, less, not less and not more.
pub apply_relation-compare_values :
    (lib : Libraries) (x y : Value) (c : Comparison)
    → IsOrdered x
    → InRange x
    → InRange y
    → NotNan x
    → NotNan y
    → compare_values lib.valid_time x y ≡ ok c
    → (apply_relation lib Relation.more_than x y ≡ ok (is_greater c))
      × (apply_relation lib Relation.less_than x y ≡ ok (is_less c))
      × (apply_relation lib Relation.greater_equal x y ≡ ok (not (is_less c)))
      × (apply_relation lib Relation.less_equal x y ≡ ok (not (is_greater c)))
unfolding apply_relation compare_values
apply_relation-compare_values lib (int x) (int y) c o rx ry nx ny h = ground arith
apply_relation-compare_values lib (float x) (float y) c o rx ry nx ny h =
    ground (arith, float-greater x y nx ny rx ry, float-smaller x y nx ny rx ry)
apply_relation-compare_values lib (string x) (string y) c o rx ry nx ny h =
    ground (arith, bytes_less-swap x y, bytes_equal_iff x y, bytes_less_irrefl x)
apply_relation-compare_values lib (time s n) (time s' n') c o rx ry nx ny h = ground arith
apply_relation-compare_values lib (bool x) y c o rx ry nx ny h = absurd o
apply_relation-compare_values lib _ _ c o rx ry nx ny h = cc

-- The membership that IN tests: some element is equal to the value.
pub data AnyEqual (lib : Libraries) (v : Value) : List Value → Type 0 where
  here : {w : Value} {ws : List Value} → lib.are_equal v w ≡ true → AnyEqual lib v (w ∷ ws)
  later : {w : Value} {ws : List Value} → AnyEqual lib v ws → AnyEqual lib v (w ∷ ws)

any_equal_sound :
    (lib : Libraries) (v : Value) (ws : List Value) → any_equal lib v ws ≡ true → AnyEqual lib v ws
unfolding any_equal
any_equal_sound lib v [] h = cc
any_equal_sound lib v (w ∷ ws) h = elim (Bool-cases (lib.are_equal v w)) [
  | inl found ↦ here found
  | inr other ↦ later (any_equal_sound lib v ws (ground arith))
]

any_equal_complete :
    (lib : Libraries) (v : Value) {ws : List Value} → AnyEqual lib v ws → any_equal lib v ws ≡ true
unfolding any_equal
any_equal_complete lib v (here found) = rw found
any_equal_complete lib v (later {w} m) = ground (arith, any_equal_complete lib v m)

-- IN on a tuple holds exactly where an element of it is equal to the value, and NOT IN exactly where
-- none is.
pub apply_relation-in :
    (lib : Libraries) (v : Value) (ws : Values)
    → ((apply_relation lib Relation.in_list v (tuple ws) ≡ ok true) ↔ AnyEqual lib v (as_slice ws))
      × ((apply_relation lib Relation.not_in v (tuple ws) ≡ ok true)
          ↔ ¬ AnyEqual lib v (as_slice ws))
unfolding apply_relation
apply_relation-in lib v ws = (
  (λ h. any_equal_sound lib v (as_slice ws) (ground arith), λ m. rw (any_equal_complete lib v m)),
  (
    λ h m. cc (h, any_equal_complete lib v m),
    λ none_equal. elim (Bool-cases (any_equal lib v (as_slice ws))) [
      | inl found ↦ absurd (none_equal (any_equal_sound lib v (as_slice ws) found))
      | inr other ↦ rw other
    ],
  ),
)

-- Every predicate of the formula, taken by itself, has an answer: there is no short circuit.
abbrev pub AllAnswer : {Env : Type 0} → Libraries → Env → Formula Env → Type 0
AllAnswer lib env (constant b) = Unit
AllAnswer lib env (conjunction f g) = AllAnswer lib env f × AllAnswer lib env g
AllAnswer lib env (disjunction f g) = AllAnswer lib env f × AllAnswer lib env g
AllAnswer lib env (negation f) = AllAnswer lib env f
AllAnswer lib env (predicate left r right) = is_ok (apply_operands lib env r left right) ≡ true

abbrev answer : Outcome Bool → Bool
answer (ok b) = b
answer _ = false

-- The truth value of a formula whose predicates all answer.
abbrev pub truth : {Env : Type 0} → Libraries → Env → Formula Env → Bool
truth lib env (constant b) = b
truth lib env (conjunction f g) = truth lib env f && truth lib env g
truth lib env (disjunction f g) = truth lib env f || truth lib env g
truth lib env (negation f) = not (truth lib env f)
truth lib env (predicate left r right) = answer (apply_operands lib env r left right)

answered : (r : Outcome Bool) → is_ok r ≡ true → r ≡ ok (answer r)
answered r h = ground arith

evaluate-answers :
    {Env : Type 0} (lib : Libraries) (env : Env) (f : Formula Env)
    → AllAnswer lib env f
    → evaluate lib env f ≡ ok (truth lib env f)
unfolding evaluate
evaluate-answers lib env (constant b) h = refl
evaluate-answers lib env (conjunction f g) h =
    rw (evaluate-answers lib env f h.0, evaluate-answers lib env g h.1)
evaluate-answers lib env (disjunction f g) h =
    rw (evaluate-answers lib env f h.0, evaluate-answers lib env g h.1)
evaluate-answers lib env (negation f) h = rw (evaluate-answers lib env f h)
evaluate-answers lib env (predicate left r right) h = answered _ h

evaluate-needs :
    {Env : Type 0} (lib : Libraries) (env : Env) (f : Formula Env)
    → is_ok (evaluate lib env f) ≡ true
    → AllAnswer lib env f
unfolding evaluate
evaluate-needs lib env (constant b) h = tt
evaluate-needs lib env (conjunction f g) h =
    (evaluate-needs lib env f (ground arith), evaluate-needs lib env g (ground arith))
evaluate-needs lib env (disjunction f g) h =
    (evaluate-needs lib env f (ground arith), evaluate-needs lib env g (ground arith))
evaluate-needs lib env (negation f) h = evaluate-needs lib env f (ground arith)
evaluate-needs lib env (predicate left r right) h = h

-- A formula evaluates to a truth value exactly where each of its predicates has an answer, also those
-- that the value of the others makes irrelevant, and that is the truth value of the formula.
pub evaluate-truth :
    {Env : Type 0} (lib : Libraries) (env : Env) (f : Formula Env) (b : Bool)
    → (evaluate lib env f ≡ ok b) ↔ (AllAnswer lib env f × (truth lib env f ≡ b))
evaluate-truth lib env f b = (
  λ h.
      let a = evaluate-needs lib env f (ap is_ok h) in
      (a, ok-injective (sym (evaluate-answers lib env f a) ∙ h)),
  λ (a, e). evaluate-answers lib env f a ∙ ap ok e,
)
