-- ===== src/Functions/Panics.antt =====
-- The functions that may end the process, each with the arguments on which a call of it does.
use octosql.Base.{
  Bool, true, false, not, ◌||◌, if◌then◌else◌, panic, ℕ, zero, suc, List, [], ◌∷◌, ◌≡◌, refl,
  Option, none, some, is_panic, ◌>>=◌, leb, arith, length,
}
use octosql.SortedKeys.{make_time}
use octosql.Value.{
  Value, get_type, zero_value, null, int, float, string, time, duration, tuple, as_slice,
}
use octosql.Functions.Function.{FunctionLibraries, Moment, execute, or_failure, int_neg}
use octosql.Functions.Numbers.{rand_int_logic, func_rand_int}
use octosql.Functions.Sequences.{substring_logic, func_substring, nth_logic, func_nth, element_at}
use octosql.Functions.Operators.{
  add_logic, func_add, subtract_logic, func_subtract, divide_logic, func_divide, now_logic,
  func_now, parse_time_logic, func_parse_time, coalesce_logic, func_coalesce,
}
use octosql.Functions.Crashes.{
  substring_crashes, nth_crashes, rand_int_crashes, coalesce_crashes, is_no_time, is_no_parsed_time,
  divide_crashes, now_crashes, parse_time_crashes, add_crashes, subtract_crashes, AllSized,
}

pub substring_panics :
    (args : List Value) → is_panic (execute func_substring args) ≡ substring_crashes args
unfolding execute func_substring substring_logic get_type
substring_panics [] = refl
substring_panics (string s ∷ []) = refl
substring_panics (v ∷ []) = refl
substring_panics (string s ∷ int a ∷ []) = ground arith
substring_panics (string s ∷ int a ∷ int b ∷ []) = ground arith
substring_panics (string s ∷ int a ∷ w ∷ []) = refl
substring_panics (string s ∷ w ∷ []) = refl
substring_panics (string s ∷ w ∷ x ∷ []) = refl
substring_panics (v ∷ w ∷ []) = refl
substring_panics (v ∷ w ∷ x ∷ []) = refl
substring_panics (v ∷ w ∷ x ∷ y ∷ args) = ground arith

-- A list has an element at an index below its length only.
element_at_panics : (vs : List Value) (n : ℕ) → is_panic (element_at vs n) ≡ leb (length vs) n
element_at_panics [] n = ground arith
element_at_panics (v ∷ vs) zero = ground arith
element_at_panics (v ∷ vs) (suc n) = ground (arith, element_at_panics vs n)

pub nth_panics :
    (args : List Value) → AllSized args → is_panic (execute func_nth args) ≡ nth_crashes args
unfolding execute func_nth nth_logic get_type
nth_panics [] h = refl
nth_panics (int n ∷ []) h = refl
nth_panics (v ∷ []) h = refl
nth_panics (int n ∷ tuple vs ∷ []) h = ground (arith, element_at_panics (as_slice vs) n)
nth_panics (int n ∷ w ∷ []) h = refl
nth_panics (v ∷ w ∷ []) h = refl
nth_panics (v ∷ w ∷ x ∷ args) h = ground arith

coalesce_logic_panics : (args : List Value) → is_panic (coalesce_logic args) ≡ coalesce_crashes args
unfolding coalesce_logic
coalesce_logic_panics [] = refl
coalesce_logic_panics (null ∷ args) = coalesce_logic_panics args
coalesce_logic_panics (zero_value ∷ args) = refl
coalesce_logic_panics (v ∷ args) = refl

pub coalesce_panics :
    (args : List Value) → is_panic (execute func_coalesce args) ≡ coalesce_crashes args
unfolding execute func_coalesce
coalesce_panics [] = refl
coalesce_panics (v ∷ args) = ground (arith, coalesce_logic_panics (v ∷ args))

module _ (lib : FunctionLibraries) where
  pub rand_int_panics :
      (args : List Value)
      → AllSized args
      → is_panic (execute (func_rand_int lib) args) ≡ rand_int_crashes args
  unfolding execute func_rand_int rand_int_logic get_type
  rand_int_panics [] h = refl
  rand_int_panics (int x ∷ []) h = ground arith
  rand_int_panics (v ∷ []) h = refl
  rand_int_panics (int x ∷ int y ∷ []) h = ground arith
  rand_int_panics (int x ∷ w ∷ []) h = refl
  rand_int_panics (v ∷ w ∷ []) h = refl
  rand_int_panics (v ∷ w ∷ x ∷ args) h = ground arith

  make_time_panics : (t : Moment) → is_panic (make_time lib.valid_time t) ≡ is_no_time lib t
  unfolding make_time
  make_time_panics (s, n) = ground arith

  pub now_panics :
      (args : List Value) → is_panic (execute (func_now lib) args) ≡ now_crashes lib args
  unfolding execute func_now now_logic
  now_panics [] = make_time_panics lib.now
  now_panics (v ∷ args) = ground arith

  parsed_panics :
      (t : Option Moment)
      → is_panic (or_failure t >>= make_time lib.valid_time) ≡ is_no_parsed_time lib t
  parsed_panics none = refl
  parsed_panics (some t) = make_time_panics t

  pub parse_time_panics :
      (args : List Value)
      → is_panic (execute (func_parse_time lib) args) ≡ parse_time_crashes lib args
  unfolding execute func_parse_time parse_time_logic get_type
  parse_time_panics [] = refl
  parse_time_panics (string s ∷ []) = refl
  parse_time_panics (v ∷ []) = refl
  parse_time_panics (string s ∷ string t ∷ []) = parsed_panics (lib.parse_time s t)
  parse_time_panics (string s ∷ w ∷ []) = refl
  parse_time_panics (v ∷ w ∷ []) = refl
  parse_time_panics (v ∷ w ∷ x ∷ args) = ground arith

  pub divide_panics :
      (args : List Value) → is_panic (execute (func_divide lib) args) ≡ divide_crashes lib args
  unfolding execute func_divide divide_logic get_type
  divide_panics [] = refl
  divide_panics (int x ∷ []) = refl
  divide_panics (v ∷ []) = refl
  divide_panics (int x ∷ int y ∷ []) = ground arith
  divide_panics (int x ∷ w ∷ []) = refl
  divide_panics (duration d ∷ int y ∷ []) = ground arith
  divide_panics (duration d ∷ float f ∷ []) = ground arith
  divide_panics (duration d ∷ w ∷ []) = refl
  divide_panics (float f ∷ float g ∷ []) = refl
  divide_panics (float f ∷ w ∷ []) = refl
  divide_panics (v ∷ int x ∷ []) = refl
  divide_panics (v ∷ w ∷ []) = refl
  divide_panics (v ∷ w ∷ x ∷ args) = ground arith

  -- A time computed from one that protobuf accepts or not.
  accepted_panics :
      (accepted : Bool) (t : Moment)
      → is_panic (if accepted then make_time lib.valid_time t else panic)
        ≡ (not accepted || is_no_time lib t)
  accepted_panics true t = make_time_panics t
  accepted_panics false t = refl

  pub add_panics :
      (args : List Value) → is_panic (execute (func_add lib) args) ≡ add_crashes lib args
  unfolding execute func_add add_logic get_type
  add_panics [] = refl
  add_panics (int x ∷ []) = refl
  add_panics (v ∷ []) = refl
  add_panics (time s n ∷ duration d ∷ []) =
      accepted_panics (lib.valid_time s n) (lib.time_add (s, n) d)
  add_panics (time s n ∷ w ∷ []) = refl
  add_panics (int x ∷ int y ∷ []) = refl
  add_panics (int x ∷ w ∷ []) = refl
  add_panics (v ∷ int x ∷ []) = refl
  add_panics (v ∷ w ∷ []) = refl
  add_panics (v ∷ w ∷ x ∷ args) = ground arith

  pub subtract_panics :
      (args : List Value) → is_panic (execute (func_subtract lib) args) ≡ subtract_crashes lib args
  unfolding execute func_subtract subtract_logic get_type
  subtract_panics [] = refl
  subtract_panics (int x ∷ []) = refl
  subtract_panics (v ∷ []) = refl
  subtract_panics (time s n ∷ duration d ∷ []) =
      accepted_panics (lib.valid_time s n) (lib.time_add (s, n) (int_neg d))
  subtract_panics (time s n ∷ w ∷ []) = refl
  subtract_panics (int x ∷ int y ∷ []) = refl
  subtract_panics (int x ∷ w ∷ []) = refl
  subtract_panics (v ∷ int x ∷ []) = refl
  subtract_panics (v ∷ w ∷ []) = refl
  subtract_panics (v ∷ w ∷ x ∷ args) = ground arith
