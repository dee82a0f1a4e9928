-- ===== src/Functions/Operators.antt =====
-- execution/functions/functions.go: the operators, the functions on times and durations, and those on
-- any values.
use octosql.Base.{
  ℕ, List, [], ◌∷◌, Bytes, Option, none, some, Outcome, ok, err, panic, ◌>>=◌, undefined_result,
  ◌==◌, if◌then◌else◌, bytes_equal,
}
use octosql.Base.Int.{int_add, int_sub}
use octosql.SortedKeys.{make_time}
use octosql.Value.{Value, zero_value, null, int, float, string, time, duration}
use octosql.Aggregates.{as_int}
use octosql.Functions.Validators.{
  Validator, all, one_of, single_all, exactly_n_args, at_least_n_args, at_most_n_args, type_of, arg,
  all_args, value_of,
}
use octosql.Functions.Function.{
  Function, FunctionLibraries, or_failure, int_neg, int_mul, int_div, float_minus_one,
}
use octosql.Functions.Numbers.{as_float}
use octosql.Functions.Sequences.{as_text}
use octosql.Functions.Texts.{codes}

-- `AsDuration`, which panics on any other value.
abbrev pub as_duration : Value → Outcome ℕ
as_duration (duration d) = ok d
as_duration _ = panic

abbrev plus_or_minus : Validator
plus_or_minus = one_of (
    all (
      at_least_n_args 1
      ∷ at_most_n_args 2
      ∷ one_of (
          all_args (type_of (int 0))
          ∷ all_args (type_of (float 0))
          ∷ all_args (type_of (duration 0))
          ∷ [])
      ∷ [])
    ∷ all (exactly_n_args 2 ∷ arg 0 (type_of (time 0 0)) ∷ arg 1 (type_of (duration 0)) ∷ [])
    ∷ [])

-- The arguments of a duration and a value of some type.
abbrev duration_by : Value → Validator
duration_by v = all (arg 0 (type_of (duration 0)) ∷ arg 1 (type_of v) ∷ [])

-- The units that the logic of `duration` knows, and how many nanoseconds each has, as factors.
abbrev pub unit_table : List (Bytes × (ℕ × ℕ))
unit_table =
    (codes "nanosecond", (1, 1))
    ∷ (codes "microsecond", (1000, 1))
    ∷ (codes "millisecond", (1000000, 1))
    ∷ (codes "second", (1000000000, 1))
    ∷ (codes "minute", (60000000000, 1))
    ∷ (codes "hour", (3600000000000, 1))
    ∷ (codes "day", (3600000000000, 24))
    ∷ []

abbrev pub units_of : List (Bytes × (ℕ × ℕ)) → List Bytes
units_of [] = []
units_of ((u, f) ∷ table) = u ∷ units_of table

-- The one that only the validator knows.
abbrev pub month : Bytes
month = codes "month"

abbrev pub texts : List Bytes → List Value → List Value
texts [] vs = vs
texts (u ∷ us) vs = string u ∷ texts us vs

-- The switch on the unit.
unfoldable pub unit_factors : List (Bytes × (ℕ × ℕ)) → Bytes → Option (ℕ × ℕ)
unit_factors [] u = none
unit_factors ((unit, factors) ∷ table) u =
    if bytes_equal unit u then some factors else unit_factors table u

-- `TypeZero` is not among the cases of the switch.
unfoldable pub coalesce_logic : List Value → Outcome Value
coalesce_logic [] = ok null
coalesce_logic (null ∷ args) = coalesce_logic args
coalesce_logic (zero_value ∷ args) = panic
coalesce_logic (v ∷ args) = ok v

unfoldable pub func_coalesce : Function
unfolding coalesce_logic
func_coalesce = record { validator = all (at_least_n_args 1 ∷ []); logic = coalesce_logic }

module _ (lib : FunctionLibraries) where
  -- `AsTime` panics on a time that protobuf refuses.
  unfoldable pub add_logic : List Value → Outcome Value
  add_logic (int w ∷ []) = ok (int w)
  add_logic (float f ∷ []) = ok (float f)
  add_logic (duration d ∷ []) = ok (duration d)
  add_logic (int w ∷ v ∷ []) = ok (int (int_add w (as_int v)))
  add_logic (float f ∷ v ∷ []) = ok (float (lib.float_add f (as_float v)))
  add_logic (duration d ∷ v ∷ []) = as_duration v >>= λ e. ok (duration (int_add d e))
  add_logic (time s n ∷ v ∷ []) =
      if lib.valid_time s n
      then (as_duration v >>= λ d. make_time lib.valid_time (lib.time_add (s, n) d))
      else panic
  add_logic _ = panic

  unfoldable pub func_add : Function
  unfolding add_logic
  func_add = record { validator = plus_or_minus; logic = add_logic }

  unfoldable pub subtract_logic : List Value → Outcome Value
  subtract_logic (int w ∷ []) = ok (int (int_neg w))
  subtract_logic (float f ∷ []) = ok (float (lib.float_mul f float_minus_one))
  subtract_logic (duration d ∷ []) = ok (duration (int_neg d))
  subtract_logic (int w ∷ v ∷ []) = ok (int (int_sub w (as_int v)))
  subtract_logic (float f ∷ v ∷ []) = ok (float (lib.float_sub f (as_float v)))
  subtract_logic (duration d ∷ v ∷ []) = as_duration v >>= λ e. ok (duration (int_sub d e))
  subtract_logic (time s n ∷ v ∷ []) =
      if lib.valid_time s n
      then (as_duration v >>= λ d. make_time lib.valid_time (lib.time_add (s, n) (int_neg d)))
      else panic
  subtract_logic _ = panic

  unfoldable pub func_subtract : Function
  unfolding subtract_logic
  func_subtract = record { validator = plus_or_minus; logic = subtract_logic }

  unfoldable pub multiply_logic : List Value → Outcome Value
  multiply_logic (int w ∷ v ∷ _) = ok (int (int_mul w (as_int v)))
  multiply_logic (float f ∷ v ∷ _) = ok (float (lib.float_mul f (as_float v)))
  multiply_logic (duration d ∷ int w ∷ _) = ok (duration (int_mul d w))
  multiply_logic (duration d ∷ float f ∷ _) =
      ok (duration (lib.int_of_float (lib.float_mul (lib.float_of_int d) f)))
  multiply_logic _ = panic

  unfoldable pub func_multiply : Function
  unfolding multiply_logic
  func_multiply = record {
    validator = all (
        exactly_n_args 2
        ∷ one_of (
            all_args (type_of (int 0))
            ∷ all_args (type_of (float 0))
            ∷ duration_by (int 0)
            ∷ duration_by (float 0)
            ∷ [])
        ∷ []);
    logic = multiply_logic;
  }

  -- Go's `/` on int64, which panics where the divisor is zero.
  abbrev pub int_quotient : ℕ → ℕ → Outcome ℕ
  unfolding int_div
  int_quotient x y = if y == 0 then panic else ok (int_div x y)

  unfoldable pub divide_logic : List Value → Outcome Value
  unfolding int_div
  divide_logic (int w ∷ v ∷ _) =
      if as_int v == 0 then err undefined_result else int_quotient w (as_int v) >>= λ q. ok (int q)
  divide_logic (float f ∷ v ∷ _) = ok (float (lib.float_div f (as_float v)))
  divide_logic (duration d ∷ int w ∷ _) =
      if w == 0 then err undefined_result else int_quotient d w >>= λ q. ok (duration q)
  divide_logic (duration d ∷ float f ∷ _) =
      int_quotient d (lib.int_of_float f) >>= λ q. ok (duration q)
  divide_logic (duration d ∷ duration e ∷ _) =
      ok (float (lib.float_div (lib.float_of_int d) (lib.float_of_int e)))
  divide_logic _ = panic

  unfoldable pub func_divide : Function
  unfolding divide_logic
  func_divide = record {
    validator = all (
        exactly_n_args 2
        ∷ one_of (
            all_args (type_of (int 0))
            ∷ all_args (type_of (float 0))
            ∷ duration_by (int 0)
            ∷ duration_by (float 0)
            ∷ duration_by (duration 0)
            ∷ [])
        ∷ []);
    logic = divide_logic;
  }

  unfoldable pub duration_logic : List Value → Outcome Value
  unfolding unit_factors
  duration_logic (text ∷ []) =
      or_failure (lib.parse_duration (as_text text)) >>= λ d. ok (duration d)
  duration_logic (count ∷ unit ∷ []) = elim (unit_factors unit_table (as_text unit)) [
    | none ↦ panic
    | some (x, y) ↦ ok (duration (int_mul (int_mul (as_int count) x) y))
  ]
  duration_logic _ = panic

  unfoldable pub func_duration : Function
  unfolding duration_logic
  func_duration = record {
    validator = one_of (
        all (exactly_n_args 1 ∷ arg 0 (type_of (string [])) ∷ [])
        ∷ all (
            exactly_n_args 2
            ∷ arg 0 (type_of (int 0))
            ∷ arg 1 (
                single_all (
                  type_of (string [])
                  ∷ value_of lib.are_equal (texts (units_of unit_table) (string month ∷ []))
                  ∷ []))
            ∷ [])
        ∷ []);
    logic = duration_logic;
  }

  unfoldable pub now_logic : List Value → Outcome Value
  now_logic args = make_time lib.valid_time lib.now

  unfoldable pub func_now : Function
  unfolding now_logic
  func_now = record { validator = exactly_n_args 0; logic = now_logic }

  unfoldable pub parse_time_logic : List Value → Outcome Value
  parse_time_logic (format ∷ text ∷ _) =
      or_failure (lib.parse_time (as_text format) (as_text text)) >>= λ t.
      make_time lib.valid_time t
  parse_time_logic _ = panic

  unfoldable pub func_parse_time : Function
  unfolding parse_time_logic
  func_parse_time = record {
    validator = all (exactly_n_args 2 ∷ all_args (type_of (string [])) ∷ []);
    logic = parse_time_logic;
  }

  unfoldable pub null_if_logic : List Value → Outcome Value
  null_if_logic (x ∷ y ∷ _) = if lib.are_equal x y then ok null else ok y
  null_if_logic _ = panic

  unfoldable pub func_null_if : Function
  unfolding null_if_logic
  func_null_if = record { validator = all (exactly_n_args 2 ∷ []); logic = null_if_logic }
