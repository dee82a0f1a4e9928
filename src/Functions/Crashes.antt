-- ===== src/Functions/Crashes.antt =====
-- The arguments on which a call of a function ends the process, as a description of them.
use octosql.Base.{
  ℕ, ◌+◌, ◌<◌, List, [], ◌∷◌, Bool, true, false, Option, none, some, not, ◌||◌, ◌==◌, leb,
  bytes_equal, length,
}
use octosql.Base.Int.{int_less, signed, pos_part, neg_part, sign_bit, word_mod}
use octosql.Value.{Value, zero_value, null, int, float, string, time, duration, tuple, as_slice}
use octosql.Functions.Function.{FunctionLibraries, Moment, int_neg}
use octosql.Functions.Operators.{month}
use octosql.Functions.Table.{
  FunctionName, substring, nth, rand_int, divide, to_duration, coalesce, now, parse_time, add,
  subtract,
}

-- An integer that lies so many below another one as an int64 cannot say.
abbrev pub is_too_far_below : ℕ → ℕ → Bool
is_too_far_below x y =
    leb (sign_bit + pos_part (signed x) + neg_part (signed y))
      (pos_part (signed y) + neg_part (signed x))

-- The bounds of a slice, not in order.
abbrev pub is_bad_slice : ℕ → ℕ → ℕ → Bool
is_bad_slice start end size = int_less start 0 || (int_less end start || int_less size end)

abbrev pub substring_crashes : List Value → Bool
substring_crashes (string s ∷ int a ∷ []) = is_bad_slice a (length s) (length s)
substring_crashes (string s ∷ int a ∷ int b ∷ []) = is_bad_slice a b (length s)
substring_crashes _ = false

-- A negative index, and the one behind the last.
abbrev pub nth_crashes : List Value → Bool
nth_crashes (int n ∷ tuple vs ∷ []) = int_less n 0 || n == length (as_slice vs)
nth_crashes _ = false

abbrev pub rand_int_crashes : List Value → Bool
rand_int_crashes (int x ∷ int y ∷ []) = is_too_far_below x y
rand_int_crashes _ = false

abbrev pub to_duration_crashes : List Value → Bool
to_duration_crashes (int n ∷ string unit ∷ []) = bytes_equal month unit
to_duration_crashes _ = false

-- The first value that is not null is the zero value, which has no type.
abbrev pub coalesce_crashes : List Value → Bool
coalesce_crashes [] = false
coalesce_crashes (null ∷ args) = coalesce_crashes args
coalesce_crashes (zero_value ∷ args) = true
coalesce_crashes (v ∷ args) = false

module _ (lib : FunctionLibraries) where
  abbrev pub is_no_time : Moment → Bool
  is_no_time (s, n) = not (lib.valid_time s n)

  -- A float below one in magnitude, that an integer division is by.
  abbrev pub divide_crashes : List Value → Bool
  divide_crashes (duration d ∷ float f ∷ []) = lib.int_of_float f == 0
  divide_crashes _ = false

  abbrev pub now_crashes : List Value → Bool
  now_crashes [] = is_no_time lib.now
  now_crashes _ = false

  abbrev pub is_no_parsed_time : Option Moment → Bool
  is_no_parsed_time none = false
  is_no_parsed_time (some t) = is_no_time t

  abbrev pub parse_time_crashes : List Value → Bool
  parse_time_crashes (string format ∷ string text ∷ []) =
      is_no_parsed_time (lib.parse_time format text)
  parse_time_crashes _ = false

  abbrev pub add_crashes : List Value → Bool
  add_crashes (time s n ∷ duration d ∷ []) = is_no_time (s, n) || is_no_time (lib.time_add (s, n) d)
  add_crashes _ = false

  abbrev pub subtract_crashes : List Value → Bool
  subtract_crashes (time s n ∷ duration d ∷ []) =
      is_no_time (s, n) || is_no_time (lib.time_add (s, n) (int_neg d))
  subtract_crashes _ = false

  abbrev pub crashes : FunctionName → List Value → Bool
  crashes substring = substring_crashes
  crashes nth = nth_crashes
  crashes rand_int = rand_int_crashes
  crashes to_duration = to_duration_crashes
  crashes coalesce = coalesce_crashes
  crashes divide = divide_crashes
  crashes now = now_crashes
  crashes parse_time = parse_time_crashes
  crashes add = add_crashes
  crashes subtract = subtract_crashes
  crashes _ = λ args. false

-- Words are below 2^64, and texts and tuples shorter than 2^63.
abbrev pub IsSized : Value → Type 0
IsSized (int w) = w < word_mod
IsSized (string s) = length s < sign_bit
IsSized (tuple vs) = length (as_slice vs) < sign_bit
IsSized _ = Unit

abbrev pub AllSized : List Value → Type 0
AllSized [] = Unit
AllSized (v ∷ args) = IsSized v × AllSized args
