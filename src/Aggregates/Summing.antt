-- ===== src/Aggregates/Summing.antt =====
-- execution/aggregates/sum.go and avg.go. The arithmetic of floats, and the division of a duration,
-- are the machine's: parameters.
use octosql.Base.{
  ℕ, Bool, ◌&&◌, ◌||◌, Outcome, ok, err, panic, ◌>>=◌, ◌==◌, if◌then◌else◌, type_mismatch,
  unsupported_type,
}
use octosql.Base.Int.{int_add, int_sub, int_less}
use octosql.Value.{
  Value, ValueType, type_int, type_float, type_duration, int, float, duration, get_type,
  type_number, same_type, float_equal,
}
use octosql.Storage.{StorageOps, or_zero}
use octosql.Aggregates.Counting.{
  Aggregate, as_int, count_add_value, count_retract_value, count_get_value,
}

pub record FloatOps : Type 0 where
  pub float_add : ℕ → ℕ → ℕ
  pub float_sub : ℕ → ℕ → ℕ
  pub float_div : ℕ → ℕ → ℕ
  -- `float64(i)` of an int.
  pub float_of_int : ℕ → ℕ
  -- The quotient of two int64, rounded towards zero.
  pub int_div : ℕ → ℕ → ℕ

unfoldable pub is_neutral_element : Value → Value → Outcome Bool
is_neutral_element (int w) n = ok (w == 0 && as_int n == 0)
is_neutral_element (float b) n = ok (float_equal b 0 && as_int n == 0)
is_neutral_element (duration d) n = ok (d == 0 && as_int n == 0)
is_neutral_element _ n = panic

unfoldable pub get_appropriate_neutral_element : ValueType → Outcome Value
get_appropriate_neutral_element type_int = ok (int 0)
get_appropriate_neutral_element type_float = ok (float 0)
get_appropriate_neutral_element type_duration = ok (duration 0)
get_appropriate_neutral_element _ = err unsupported_type

-- The sum that is in force: the neutral element of the value's type where nothing is summed up.
unfoldable pub active_sum : Value → Value → Value → Outcome Value
unfolding get_type is_neutral_element get_appropriate_neutral_element
active_sum sum n value = do
  neutral ← is_neutral_element sum n
  if neutral then get_appropriate_neutral_element (get_type value) else ok sum

module _ (fl : FloatOps) where
  -- The switch on the type of the value, behind the test that it is the type of the sum.
  unfoldable pub sum_plus : Value → Value → Outcome Value
  sum_plus (int s) (int w) = ok (int (int_add s w))
  sum_plus (float s) (float w) = ok (float (fl.float_add s w))
  sum_plus (duration s) (duration w) = ok (duration (int_add s w))
  sum_plus sum value = err unsupported_type

  unfoldable pub sum_minus : Value → Value → Outcome Value
  sum_minus (int s) (int w) = ok (int (int_sub s w))
  sum_minus (float s) (float w) = ok (float (fl.float_sub s w))
  sum_minus (duration s) (duration w) = ok (duration (int_sub s w))
  sum_minus sum value = err unsupported_type

  module _ (o : StorageOps) where
    -- The sum, and the count of its elements.
    abbrev pub SumState : Type 0
    SumState = o.Cell × o.Cell

    unfoldable pub sum_get_value : SumState → Outcome Value
    sum_get_value (sum, n) = or_zero (o.cell_get sum)

    unfoldable pub sum_add_value : SumState → Value → Outcome SumState
    unfolding sum_get_value active_sum sum_plus
    sum_add_value (sum, n) value = do
      current ← sum_get_value (sum, n)
      current_count ← or_zero (o.cell_get n)
      active ← active_sum current current_count value
      total ← if same_type active value then sum_plus active value else err type_mismatch
      sum' ← o.cell_set sum total
      n' ← o.cell_set n (int (int_add (as_int current_count) 1))
      ok (sum', n')

    unfoldable pub sum_retract_value : SumState → Value → Outcome SumState
    unfolding sum_get_value active_sum sum_minus
    sum_retract_value (sum, n) value = do
      current ← sum_get_value (sum, n)
      current_count ← or_zero (o.cell_get n)
      active ← active_sum current current_count value
      total ← if same_type active value then sum_minus active value else err type_mismatch
      let count = int_sub (as_int current_count) 1
      sum' ← o.cell_set sum total
      n' ← if count == 0 then o.cell_clear n else o.cell_set n (int count)
      ok (sum', n')

    abbrev pub sum : Aggregate
    sum = record {
      State = SumState;
      add_value = sum_add_value;
      retract_value = sum_retract_value;
      get_value = λ s. sum_get_value s >>= λ v. ok (v, s);
    }

    unfoldable pub is_appropriate_type : ValueType → Bool
    is_appropriate_type t =
        type_number t == type_number type_int
        || type_number t == type_number type_float
        || type_number t == type_number type_duration

    -- The sum and the count below it.
    abbrev pub AverageState : Type 0
    AverageState = SumState × o.Cell

    unfoldable pub average_add_value : AverageState → Value → Outcome AverageState
    unfolding get_type is_appropriate_type sum_add_value count_add_value
    average_add_value (s, c) value =
        if is_appropriate_type (get_type value)
        then (do s' ← sum_add_value s value; c' ← count_add_value o c value; ok (s', c'))
        else err unsupported_type

    unfoldable pub average_retract_value : AverageState → Value → Outcome AverageState
    unfolding get_type is_appropriate_type sum_retract_value count_retract_value
    average_retract_value (s, c) value =
        if is_appropriate_type (get_type value)
        then (do s' ← sum_retract_value s value; c' ← count_retract_value o c value; ok (s', c'))
        else err unsupported_type

    -- The switch on the type of the sum.
    unfoldable pub quotient : Value → ℕ → Outcome Value
    quotient (int s) n = ok (float (fl.float_div (fl.float_of_int s) (fl.float_of_int n)))
    quotient (float s) n = ok (float (fl.float_div s (fl.float_of_int n)))
    quotient (duration s) n = ok (duration (fl.int_div s n))
    quotient s n = panic

    unfoldable pub average_get_value : AverageState → Outcome Value
    unfolding sum_get_value count_get_value quotient
    average_get_value (s, c) = do
      current_sum ← sum_get_value s
      current_count ← count_get_value o c
      if int_less 0 (as_int current_count)
          then quotient current_sum (as_int current_count)
          else ok (int 0)
