-- ===== src/Functions/Numbers.antt =====
-- execution/functions/functions.go: the functions on numbers. A function's logic is by clauses on its
-- arguments; `log.Fatalf`, which ends the process, is a panic.
use octosql.Base.{
  ℕ, List, [], ◌∷◌, Bool, false, Outcome, ok, err, panic, ◌>>=◌, undefined_result, ◌||◌,
  if◌then◌else◌,
}
use octosql.Base.Int.{int_add, int_sub, int_less, int_positive}
use octosql.Value.{Value, int, float, bool, string, float_less, float_equal}
use octosql.Aggregates.{as_int}
use octosql.Functions.Validators.{
  Validator, all, one_of, single_one_of, exactly_n_args, at_least_n_args, at_most_n_args, type_of,
  arg, all_args,
}
use octosql.Functions.Function.{
  Function, FunctionLibraries, or_failure, int_neg, float_one, float_minus_one, float_inf,
  float_minus_inf, one_number,
}

abbrev pub as_float : Value → ℕ
as_float (float f) = f
as_float _ = 0

-- `f <= 0.0`
abbrev float_not_positive : ℕ → Bool
float_not_positive f = float_less f 0 || float_equal f 0

abbrev pub one_scalar : Validator
one_scalar = all (
    exactly_n_args 1
    ∷ arg 0 (
        single_one_of
          (type_of (bool false) ∷ type_of (int 0) ∷ type_of (float 0) ∷ type_of (string []) ∷ []))
    ∷ [])

abbrev pub some_numbers : Validator
some_numbers = all (
    at_least_n_args 1
    ∷ one_of (all_args (type_of (int 0)) ∷ all_args (type_of (float 0)) ∷ [])
    ∷ [])

abbrev pub at_most_two_ints : Validator
at_most_two_ints = all (at_most_n_args 2 ∷ all_args (type_of (int 0)) ∷ [])

abbrev pub int_min : ℕ → ℕ → ℕ
int_min x y = if int_less y x then y else x

abbrev pub int_max : ℕ → ℕ → ℕ
int_max x y = if int_less y x then x else y

-- The loops of `least` and `greatest`.
abbrev pub least_int : ℕ → List Value → ℕ
least_int min [] = min
least_int min (v ∷ args) = least_int (int_min min (as_int v)) args

abbrev pub greatest_int : ℕ → List Value → ℕ
greatest_int max [] = max
greatest_int max (v ∷ args) = greatest_int (int_max max (as_int v)) args

-- `math.MaxInt64` and `math.MinInt64`
abbrev pub max_int64 : ℕ
max_int64 = 9223372036854775807

abbrev pub min_int64 : ℕ
min_int64 = 9223372036854775808

module _ (lib : FunctionLibraries) where
  unfoldable pub int_logic : List Value → Outcome Value
  int_logic (bool b ∷ _) = ok (int (if b then 1 else 0))
  int_logic (int w ∷ _) = ok (int w)
  int_logic (float f ∷ _) = ok (int (lib.int_of_float f))
  int_logic (string s ∷ _) = or_failure (lib.atoi s) >>= λ w. ok (int w)
  int_logic _ = panic

  unfoldable pub func_int : Function
  unfolding int_logic
  func_int = record { validator = one_scalar; logic = int_logic }

  unfoldable pub float_logic : List Value → Outcome Value
  float_logic (int w ∷ _) = ok (float (lib.float_of_int w))
  float_logic (float f ∷ _) = ok (float f)
  float_logic (bool b ∷ _) = ok (float (if b then float_one else 0))
  float_logic (string s ∷ _) = or_failure (lib.parse_float s) >>= λ f. ok (float f)
  float_logic _ = panic

  unfoldable pub func_float : Function
  unfolding float_logic
  func_float = record { validator = one_scalar; logic = float_logic }

  unfoldable pub negate_logic : List Value → Outcome Value
  negate_logic (int w ∷ _) = ok (int (int_neg w))
  negate_logic (float f ∷ _) = ok (float (lib.float_mul float_minus_one f))
  negate_logic _ = panic

  unfoldable pub func_negate : Function
  unfolding negate_logic
  func_negate = record { validator = one_number; logic = negate_logic }

  unfoldable pub abs_logic : List Value → Outcome Value
  abs_logic (int w ∷ _) = ok (int (if int_less w 0 then int_neg w else w))
  abs_logic (float f ∷ _) =
      ok (float (if float_less f 0 then lib.float_mul float_minus_one f else f))
  abs_logic _ = panic

  unfoldable pub func_abs : Function
  unfolding abs_logic
  func_abs = record { validator = one_number; logic = abs_logic }

  unfoldable pub sqrt_logic : List Value → Outcome Value
  sqrt_logic (int w ∷ _) =
      if int_less w 0 then err undefined_result else ok (float (lib.sqrt (lib.float_of_int w)))
  sqrt_logic (float f ∷ _) =
      if float_less f 0 then err undefined_result else ok (float (lib.sqrt f))
  sqrt_logic _ = panic

  unfoldable pub func_sqrt : Function
  unfolding sqrt_logic
  func_sqrt = record { validator = one_number; logic = sqrt_logic }

  unfoldable pub floor_logic : List Value → Outcome Value
  floor_logic (int w ∷ _) = ok (float (lib.float_of_int w))
  floor_logic (float f ∷ _) = ok (float (lib.floor f))
  floor_logic _ = panic

  unfoldable pub func_floor : Function
  unfolding floor_logic
  func_floor = record { validator = one_number; logic = floor_logic }

  unfoldable pub ceil_logic : List Value → Outcome Value
  ceil_logic (int w ∷ _) = ok (float (lib.float_of_int w))
  ceil_logic (float f ∷ _) = ok (float (lib.ceil f))
  ceil_logic _ = panic

  unfoldable pub func_ceil : Function
  unfolding ceil_logic
  func_ceil = record { validator = one_number; logic = ceil_logic }

  unfoldable pub log2_logic : List Value → Outcome Value
  log2_logic (int w ∷ _) =
      if int_positive w then ok (float (lib.log2 (lib.float_of_int w))) else err undefined_result
  log2_logic (float f ∷ _) =
      if float_not_positive f then err undefined_result else ok (float (lib.log2 f))
  log2_logic _ = panic

  unfoldable pub func_log2 : Function
  unfolding log2_logic
  func_log2 = record { validator = one_number; logic = log2_logic }

  unfoldable pub ln_logic : List Value → Outcome Value
  ln_logic (int w ∷ _) =
      if int_positive w
      then ok (float (lib.float_sub (lib.log1p (lib.float_of_int w)) float_one))
      else err undefined_result
  ln_logic (float f ∷ _) =
      if float_not_positive f
      then err undefined_result
      else ok (float (lib.float_sub (lib.log1p f) float_one))
  ln_logic _ = panic

  unfoldable pub func_ln : Function
  unfolding ln_logic
  func_ln = record { validator = one_number; logic = ln_logic }

  abbrev pub least_float : ℕ → List Value → ℕ
  least_float min [] = min
  least_float min (v ∷ args) = least_float (lib.float_min min (as_float v)) args

  abbrev pub greatest_float : ℕ → List Value → ℕ
  greatest_float max [] = max
  greatest_float max (v ∷ args) = greatest_float (lib.float_max max (as_float v)) args

  unfoldable pub least_logic : List Value → Outcome Value
  least_logic (int w ∷ args) = ok (int (least_int max_int64 (int w ∷ args)))
  least_logic (float f ∷ args) = ok (float (least_float float_inf (float f ∷ args)))
  least_logic _ = panic

  unfoldable pub func_least : Function
  unfolding least_logic
  func_least = record { validator = some_numbers; logic = least_logic }

  unfoldable pub greatest_logic : List Value → Outcome Value
  greatest_logic (int w ∷ args) = ok (int (greatest_int min_int64 (int w ∷ args)))
  greatest_logic (float f ∷ args) = ok (float (greatest_float float_minus_inf (float f ∷ args)))
  greatest_logic _ = panic

  unfoldable pub func_greatest : Function
  unfolding greatest_logic
  func_greatest = record { validator = some_numbers; logic = greatest_logic }

  unfoldable pub rand_float_logic : List Value → Outcome Value
  rand_float_logic [] = ok (float lib.rand_float64)
  rand_float_logic (x ∷ []) =
      ok (float (lib.float_mul (lib.float_of_int (as_int x)) lib.rand_float64))
  rand_float_logic (x ∷ y ∷ _) =
      let lower = lib.float_of_int (as_int x) in
      let upper = lib.float_of_int (as_int y) in
      ok (float (lib.float_add lower (lib.float_mul (lib.float_sub upper lower) lib.rand_float64)))

  unfoldable pub func_rand_float : Function
  unfolding rand_float_logic
  func_rand_float = record { validator = at_most_two_ints; logic = rand_float_logic }

  -- `rand.Intn`, which panics where the bound is not positive.
  abbrev pub intn : ℕ → Outcome ℕ
  intn bound = if int_positive bound then ok (lib.rand_intn bound) else panic

  unfoldable pub rand_int_logic : List Value → Outcome Value
  rand_int_logic [] = ok (int lib.rand_int)
  rand_int_logic (x ∷ []) =
      if int_positive (as_int x)
      then (intn (as_int x) >>= λ r. ok (int r))
      else err undefined_result
  rand_int_logic (x ∷ y ∷ _) =
      if int_less (as_int x) (as_int y)
      then (intn (int_sub (as_int y) (as_int x)) >>= λ r. ok (int (int_add (as_int x) r)))
      else err undefined_result

  unfoldable pub func_rand_int : Function
  unfolding rand_int_logic
  func_rand_int = record { validator = at_most_two_ints; logic = rand_int_logic }

  unfoldable pub power_logic : List Value → Outcome Value
  power_logic (x ∷ y ∷ _) = ok (float (lib.pow (as_float x) (as_float y)))
  power_logic _ = panic

  unfoldable pub func_power : Function
  unfolding power_logic
  func_power = record {
    validator = all (exactly_n_args 2 ∷ all_args (type_of (float 0)) ∷ []);
    logic = power_logic;
  }
