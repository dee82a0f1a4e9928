-- ===== src/Functions/Function.antt =====
-- execution/function.go: what a function is, and a call of one with the checks of its arguments; and
-- what the functions use of Go and of its libraries.
use octosql.Base.{
  ℕ, ◌-◌, ◌*◌, ◌/◌, ◌%◌, Bool, List, [], ◌∷◌, Bytes, Option, none, some, Outcome, ok, err, ◌>>=◌,
  ◌>>◌, parse_failure, ltb, if◌then◌else◌,
}
use octosql.Base.Int.{word_mod, sign_bit}
use octosql.Value.{Value, int, float, string, tuple, nil}
use octosql.Functions.Validators.{Validator, type_of, single_one_of, all, exactly_n_args, arg}

pub record Function : Type 0 where
  pub validator : Validator
  pub logic : List Value → Outcome Value

-- `execute`, and the end of `ExpressionValue`, for what the arguments evaluate to.
unfoldable pub execute : Function → List Value → Outcome Value
execute f args = f.validator args >> f.logic args

-- The loop of `ExpressionValue`.
abbrev pub argument_values : List (Outcome Value) → Outcome (List Value)
argument_values [] = ok []
argument_values (v ∷ vs) = do value ← v; values ← argument_values vs; ok (value ∷ values)

unfoldable pub expression_value : Function → List (Outcome Value) → Outcome Value
unfolding execute
expression_value f arguments = do values ← argument_values arguments; execute f values

-- A time: its Unix seconds (a word) and nanoseconds.
abbrev pub Moment : Type 0
Moment = ℕ × ℕ

-- IEEE arithmetic, parts of Go's library, and the clock and the random numbers that a call draws.
pub record FunctionLibraries : Type 0 where
  -- `float64(i)`, and `int(f)`.
  pub float_of_int : ℕ → ℕ
  pub int_of_float : ℕ → ℕ
  pub float_add : ℕ → ℕ → ℕ
  pub float_sub : ℕ → ℕ → ℕ
  pub float_mul : ℕ → ℕ → ℕ
  pub float_div : ℕ → ℕ → ℕ
  -- package math
  pub sqrt : ℕ → ℕ
  pub floor : ℕ → ℕ
  pub ceil : ℕ → ℕ
  pub log2 : ℕ → ℕ
  pub log1p : ℕ → ℕ
  pub pow : ℕ → ℕ → ℕ
  pub float_min : ℕ → ℕ → ℕ
  pub float_max : ℕ → ℕ → ℕ
  -- package math/rand; `intn` is given a positive bound.
  pub rand_float64 : ℕ
  pub rand_int : ℕ
  pub rand_intn : ℕ → ℕ
  -- packages strconv, strings, regexp and encoding/base32; `none` stands for an error.
  pub atoi : Bytes → Option ℕ
  pub parse_float : Bytes → Option ℕ
  pub to_lower : Bytes → Bytes
  pub to_upper : Bytes → Bytes
  pub title : Bytes → Bytes
  -- `strings.Replace(text, old, new, -1)`, in this order.
  pub replace_all : Bytes → Bytes → Bytes → Bytes
  -- the regular expression, compiled, in the text
  pub find_string : Bytes → Bytes → Option Bytes
  pub match_string : Bytes → Bytes → Option Bool
  pub decode_base32 : Bytes → Option Bytes
  -- package time
  pub now : Moment
  pub time_add : Moment → ℕ → Moment
  pub parse_duration : Bytes → Option ℕ
  pub parse_time : Bytes → Bytes → Option Moment
  -- The check of a time in `TimestampProto`.
  pub valid_time : ℕ → ℕ → Bool
  -- `proto.Equal` of two values.
  pub are_equal : Value → Value → Bool

-- The result of a library's function that may fail.
abbrev pub or_failure {ℓ} : {A : Type ℓ} → Option A → Outcome A
or_failure none = err parse_failure
or_failure (some a) = ok a

-- Go's `-1 * x`, `*` and `/` on int64; the quotient is rounded towards zero.
abbrev pub int_neg : ℕ → ℕ
int_neg x = (word_mod - x) % word_mod

abbrev pub int_mul : ℕ → ℕ → ℕ
int_mul x y = x * y % word_mod

abbrev pub magnitude : ℕ → ℕ
magnitude x = if ltb x sign_bit then x else word_mod - x

unfoldable pub int_div : ℕ → ℕ → ℕ
int_div x y =
    let q = magnitude x / magnitude y % word_mod in
    if ltb x sign_bit
    then (if ltb y sign_bit then q else int_neg q)
    else if ltb y sign_bit
    then int_neg q
    else q

-- The bits of 1.0, -1.0 and the infinities.
abbrev pub float_one : ℕ
float_one = 4607182418800017408

abbrev pub float_minus_one : ℕ
float_minus_one = 13830554455654793216

abbrev pub float_inf : ℕ
float_inf = 9218868437227405312

abbrev pub float_minus_inf : ℕ
float_minus_inf = 18442240474082181120

-- `ZeroInt()` and so on, and validators that several functions have.
abbrev pub one_number : Validator
one_number =
    all (exactly_n_args 1 ∷ arg 0 (single_one_of (type_of (int 0) ∷ type_of (float 0) ∷ [])) ∷ [])

abbrev pub one_text_or_tuple : Validator
one_text_or_tuple =
    all (
      exactly_n_args 1
      ∷ arg 0 (single_one_of (type_of (string []) ∷ type_of (tuple nil) ∷ []))
      ∷ [])

abbrev pub one_text : Validator
one_text = all (exactly_n_args 1 ∷ arg 0 (type_of (string [])) ∷ [])
