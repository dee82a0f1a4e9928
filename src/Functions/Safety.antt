-- ===== src/Functions/Safety.antt =====
-- Which calls of the functions end the process.
use octosql.Base.{List, [], ◌∷◌, false, ◌≡◌, refl, Option, none, some, ok, is_panic, ◌>>=◌, arith}
use octosql.Value.{Value, get_type, int, float, string, duration, tuple, as_slice}
use octosql.Functions.Validators.{all_args, type_of}
use octosql.Functions.Function.{FunctionLibraries, execute, or_failure}
use octosql.Functions.Numbers.{
  int_logic, func_int, float_logic, func_float, negate_logic, func_negate, abs_logic, func_abs,
  sqrt_logic, func_sqrt, floor_logic, func_floor, ceil_logic, func_ceil, log2_logic, func_log2,
  ln_logic, func_ln, least_logic, func_least, greatest_logic, func_greatest, rand_float_logic,
  func_rand_float, power_logic, func_power,
}
use octosql.Functions.Sequences.{
  reverse_logic, func_reverse, has_prefix_logic, func_has_prefix, has_suffix_logic, func_has_suffix,
  length_logic, func_length, all_texts, string_join_logic, func_string_join, contains_logic,
  func_contains, index_logic, func_index,
}
use octosql.Functions.Strings.{
  lower_logic, func_lower, upper_logic, func_upper, capitalize_logic, func_capitalize,
  regexp_find_logic, func_regexp_find, regexp_matches_logic, func_regexp_matches, replace_logic,
  func_replace, decode_base32_logic, func_decode_base32,
}
use octosql.Functions.Operators.{multiply_logic, func_multiply, null_if_logic, func_null_if}
use octosql.Functions.Shapes.{
  one_number_safe, one_scalar_safe, one_text_safe, one_text_or_tuple_safe, two_texts_safe,
  texts_or_tuple_safe,
}
use octosql.Functions.Crashes.{crashes, AllSized}
use octosql.Functions.Panics.{
  substring_panics, nth_panics, coalesce_panics, rand_int_panics, now_panics, parse_time_panics,
  divide_panics, add_panics, subtract_panics,
}
use octosql.Functions.Units.{ComparesTexts, to_duration_panics}
use octosql.Functions.Table.{
  FunctionName, to_int, to_float, lowercase, uppercase, negate, abs, capitalize, sqrt, greatest,
  least, rand_int, rand_float, ceil, floor, log2, ln, power, reverse, substring, regexp_find,
  regexp_matches, nth, replace, has_prefix, has_suffix, contains, index, length as length_name, now,
  string_join, add, subtract, multiply, divide, to_duration, coalesce, null_if, parse_time,
  decode_base32, function_table,
}

failure_safe :
    {A : Type 0} (o : Option A) (f : A → Value) → is_panic (or_failure o >>= λ a. ok (f a)) ≡ false
failure_safe none f = refl
failure_safe (some a) f = refl

all_args_safe :
    (wanted : Value) (args : List Value) → is_panic (all_args (type_of wanted) args) ≡ false
all_args_safe wanted [] = refl
all_args_safe wanted (v ∷ args) = ground (arith, all_args_safe wanted args)

all_texts_safe : (vs : List Value) → is_panic (all_texts vs) ≡ false
unfolding all_texts
all_texts_safe [] = refl
all_texts_safe (string s ∷ vs) = ground (arith, all_texts_safe vs)
all_texts_safe (v ∷ vs) = refl

module _ (lib : FunctionLibraries) where
  least_safe : (args : List Value) → is_panic (execute (func_least lib) args) ≡ false
  unfolding execute func_least least_logic get_type
  least_safe [] = refl
  least_safe (int w ∷ args) = ground (arith, all_args_safe (int 0) args)
  least_safe (float f ∷ args) = ground (arith, all_args_safe (float 0) args)
  least_safe (v ∷ args) = ground arith

  greatest_safe : (args : List Value) → is_panic (execute (func_greatest lib) args) ≡ false
  unfolding execute func_greatest greatest_logic get_type
  greatest_safe [] = refl
  greatest_safe (int w ∷ args) = ground (arith, all_args_safe (int 0) args)
  greatest_safe (float f ∷ args) = ground (arith, all_args_safe (float 0) args)
  greatest_safe (v ∷ args) = ground arith

  rand_float_safe : (args : List Value) → is_panic (execute (func_rand_float lib) args) ≡ false
  unfolding execute func_rand_float rand_float_logic get_type
  rand_float_safe [] = refl
  rand_float_safe (int x ∷ []) = refl
  rand_float_safe (v ∷ []) = refl
  rand_float_safe (int x ∷ int y ∷ []) = refl
  rand_float_safe (int x ∷ w ∷ []) = refl
  rand_float_safe (v ∷ w ∷ []) = refl
  rand_float_safe (v ∷ w ∷ x ∷ args) = ground arith

  power_safe : (args : List Value) → is_panic (execute (func_power lib) args) ≡ false
  unfolding execute func_power power_logic get_type
  power_safe [] = refl
  power_safe (v ∷ []) = refl
  power_safe (float x ∷ float y ∷ []) = refl
  power_safe (float x ∷ w ∷ []) = refl
  power_safe (v ∷ w ∷ []) = refl
  power_safe (v ∷ w ∷ x ∷ args) = ground arith

  replace_safe : (args : List Value) → is_panic (execute (func_replace lib) args) ≡ false
  unfolding execute func_replace replace_logic get_type
  replace_safe [] = refl
  replace_safe (v ∷ []) = refl
  replace_safe (v ∷ w ∷ []) = refl
  replace_safe (string s ∷ string t ∷ string u ∷ []) = refl
  replace_safe (string s ∷ string t ∷ w ∷ []) = refl
  replace_safe (string s ∷ w ∷ x ∷ []) = refl
  replace_safe (v ∷ w ∷ x ∷ []) = refl
  replace_safe (v ∷ w ∷ x ∷ y ∷ args) = ground arith

  decode_base32_safe :
      (args : List Value) → is_panic (execute (func_decode_base32 lib) args) ≡ false
  unfolding execute func_decode_base32 decode_base32_logic get_type
  decode_base32_safe [] = refl
  decode_base32_safe (string s ∷ []) = failure_safe (lib.decode_base32 s) (λ t. string t)
  decode_base32_safe (v ∷ []) = refl
  decode_base32_safe (v ∷ w ∷ args) = ground arith

  string_join_safe : (args : List Value) → is_panic (execute func_string_join args) ≡ false
  unfolding execute func_string_join string_join_logic get_type
  string_join_safe [] = refl
  string_join_safe (string s ∷ []) = refl
  string_join_safe (v ∷ []) = refl
  string_join_safe (string s ∷ tuple vs ∷ []) = ground (arith, all_texts_safe (as_slice vs))
  string_join_safe (string s ∷ w ∷ []) = refl
  string_join_safe (v ∷ w ∷ []) = refl
  string_join_safe (v ∷ w ∷ x ∷ args) = ground arith

  multiply_safe : (args : List Value) → is_panic (execute (func_multiply lib) args) ≡ false
  unfolding execute func_multiply multiply_logic get_type
  multiply_safe [] = refl
  multiply_safe (v ∷ []) = refl
  multiply_safe (int x ∷ int y ∷ []) = refl
  multiply_safe (int x ∷ w ∷ []) = refl
  multiply_safe (float x ∷ float y ∷ []) = refl
  multiply_safe (float x ∷ w ∷ []) = refl
  multiply_safe (duration d ∷ int y ∷ []) = refl
  multiply_safe (duration d ∷ w ∷ []) = refl
  multiply_safe (v ∷ int y ∷ []) = refl
  multiply_safe (v ∷ w ∷ []) = refl
  multiply_safe (v ∷ w ∷ x ∷ args) = ground arith

  null_if_safe : (args : List Value) → is_panic (execute (func_null_if lib) args) ≡ false
  unfolding execute func_null_if null_if_logic
  null_if_safe [] = refl
  null_if_safe (v ∷ []) = refl
  null_if_safe (v ∷ w ∷ []) = ground arith
  null_if_safe (v ∷ w ∷ x ∷ args) = ground arith

  -- Over libraries that compare texts by their bytes, on arguments of Go's sizes, a call of a function
  -- ends the process exactly in the cases that are described, whatever the arguments are: a slice or an
  -- index out of range, random numbers from a range too wide, a duration divided by a float below one, a
  -- duration in months, the zero value given to `coalesce`, and times that protobuf refuses, as
  -- arguments or as results.
  pub execute-crashes :
      ComparesTexts lib
      → (f : FunctionName) (args : List Value) → AllSized args
      → is_panic (execute (function_table lib f) args) ≡ crashes lib f args
  unfolding function_table func_int int_logic func_float float_logic func_lower lower_logic
      func_upper upper_logic func_negate negate_logic func_abs abs_logic func_capitalize
      capitalize_logic func_sqrt sqrt_logic func_ceil ceil_logic func_floor floor_logic func_log2
      log2_logic func_ln ln_logic func_reverse reverse_logic func_regexp_find regexp_find_logic
      func_regexp_matches regexp_matches_logic func_has_prefix has_prefix_logic func_has_suffix
      has_suffix_logic func_contains contains_logic func_index index_logic func_length length_logic
  execute-crashes equal to_int args h =
      one_scalar_safe (int_logic lib) (λ w. refl) (λ g. refl) (λ b. refl)
        (λ s. failure_safe (lib.atoi s) (λ w. int w)) args
  execute-crashes equal to_float args h =
      one_scalar_safe (float_logic lib) (λ w. refl) (λ g. refl) (λ b. refl)
        (λ s. failure_safe (lib.parse_float s) (λ w. float w)) args
  execute-crashes equal lowercase args h = one_text_safe (lower_logic lib) (λ s. refl) args
  execute-crashes equal uppercase args h = one_text_safe (upper_logic lib) (λ s. refl) args
  execute-crashes equal negate args h =
      one_number_safe (negate_logic lib) (λ w. refl) (λ g. refl) args
  execute-crashes equal abs args h = one_number_safe (abs_logic lib) (λ w. refl) (λ g. refl) args
  execute-crashes equal capitalize args h = one_text_safe (capitalize_logic lib) (λ s. refl) args
  execute-crashes equal sqrt args h =
      one_number_safe (sqrt_logic lib) (λ w. ground arith) (λ g. ground arith) args
  execute-crashes equal greatest args h = greatest_safe args
  execute-crashes equal least args h = least_safe args
  execute-crashes equal rand_int args h = rand_int_panics lib args h
  execute-crashes equal rand_float args h = rand_float_safe args
  execute-crashes equal ceil args h = one_number_safe (ceil_logic lib) (λ w. refl) (λ g. refl) args
  execute-crashes equal floor args h =
      one_number_safe (floor_logic lib) (λ w. refl) (λ g. refl) args
  execute-crashes equal log2 args h =
      one_number_safe (log2_logic lib) (λ w. ground arith) (λ g. ground arith) args
  execute-crashes equal ln args h =
      one_number_safe (ln_logic lib) (λ w. ground arith) (λ g. ground arith) args
  execute-crashes equal power args h = power_safe args
  execute-crashes equal reverse args h =
      one_text_or_tuple_safe reverse_logic (λ s. refl) (λ vs. refl) args
  execute-crashes equal substring args h = substring_panics args
  execute-crashes equal regexp_find args h =
      two_texts_safe (regexp_find_logic lib) (λ v w. failure_safe (lib.find_string _ _) _) args
  execute-crashes equal regexp_matches args h =
      two_texts_safe (regexp_matches_logic lib) (λ v w. failure_safe (lib.match_string _ _) _) args
  execute-crashes equal nth args h = nth_panics args h
  execute-crashes equal replace args h = replace_safe args
  execute-crashes equal has_prefix args h = two_texts_safe has_prefix_logic (λ v w. refl) args
  execute-crashes equal has_suffix args h = two_texts_safe has_suffix_logic (λ v w. refl) args
  execute-crashes equal contains args h =
      texts_or_tuple_safe (contains_logic lib) (λ s t. refl) (λ v vs. refl) args
  execute-crashes equal index args h =
      texts_or_tuple_safe (index_logic lib) (λ s t. refl) (λ v vs. refl) args
  execute-crashes equal length_name args h =
      one_text_or_tuple_safe length_logic (λ s. refl) (λ vs. refl) args
  execute-crashes equal now args h = now_panics lib args
  execute-crashes equal string_join args h = string_join_safe args
  execute-crashes equal add args h = add_panics lib args
  execute-crashes equal subtract args h = subtract_panics lib args
  execute-crashes equal multiply args h = multiply_safe args
  execute-crashes equal divide args h = divide_panics lib args
  execute-crashes equal to_duration args h = to_duration_panics lib equal args
  execute-crashes equal coalesce args h = coalesce_panics args
  execute-crashes equal null_if args h = null_if_safe args
  execute-crashes equal parse_time args h = parse_time_panics lib args
  execute-crashes equal decode_base32 args h = decode_base32_safe args
