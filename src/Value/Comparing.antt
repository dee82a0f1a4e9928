-- ===== src/Value/Comparing.antt =====
-- values.go: `Compare`. The order of floats is that of IEEE 754 on their bit patterns.
use octosql.Base.{
  ℕ, ◌%◌, Bool, true, false, not, ◌&&◌, ◌||◌, ltb, ◌==◌, if◌then◌else◌, bytes_equal, bytes_less,
}
use octosql.Base.{Outcome, ok, err, panic, type_mismatch, unsupported_type}
use octosql.Base.Int.{int_less, sign_bit}
use octosql.Value.Types.{
  Value, zero_value, null, phantom, int, float, bool, string, time, duration, tuple, object,
}

pub data Comparison : Type 0 where
  less_than equal greater_than : Comparison

-- Not a number: the exponent is all ones and the fraction is not zero.
abbrev pub is_nan : ℕ → Bool
is_nan b = ltb 0x7ff0_0000_0000_0000 (b % sign_bit)

abbrev pub is_negative : ℕ → Bool
is_negative b = not (ltb b sign_bit)

-- `x == y` on floats: both zeros are equal.
abbrev pub float_equal : ℕ → ℕ → Bool
float_equal x y =
    not (is_nan x) && (not (is_nan y) && (x == y || (x % sign_bit == 0 && y % sign_bit == 0)))

-- `x < y` on floats, by sign and magnitude.
abbrev pub magnitude_less : ℕ → ℕ → Bool
magnitude_less x y =
    if is_negative x
    then (if is_negative y
        then ltb (y % sign_bit) (x % sign_bit)
        else not (x % sign_bit == 0 && y == 0))
    else (if is_negative y then false else ltb x y)

abbrev pub float_less : ℕ → ℕ → Bool
float_less x y = not (is_nan x) && (not (is_nan y) && magnitude_less x y)

-- `x.Before(y)` on times.
abbrev pub time_before : ℕ → ℕ → ℕ → ℕ → Bool
time_before s n s' n' = if s == s' then ltb n n' else int_less s s'

abbrev pub bool_equal : Bool → Bool → Bool
bool_equal true y = y
bool_equal false y = not y

-- The two tests that every case of `Compare` ends in.
abbrev pub decide_comparison : Bool → Bool → Comparison
decide_comparison same less = if same then equal else if less then less_than else greater_than

-- `AsTime` panics on a time that protobuf refuses.
unfoldable pub compare_values : (ℕ → ℕ → Bool) → Value → Value → Outcome Comparison
compare_values valid_time (int x) (int y) = ok (decide_comparison (x == y) (int_less x y))
compare_values valid_time (int x) _ = err type_mismatch
compare_values valid_time (float x) (float y) =
    ok (decide_comparison (float_equal x y) (float_less x y))
compare_values valid_time (float x) _ = err type_mismatch
compare_values valid_time (string x) (string y) =
    ok (decide_comparison (bytes_equal x y) (bytes_less x y))
compare_values valid_time (string x) _ = err type_mismatch
compare_values valid_time (time s n) (time s' n') =
    if valid_time s n && valid_time s' n'
    then ok (decide_comparison (s == s' && n == n') (time_before s n s' n'))
    else panic
compare_values valid_time (time s n) _ = err type_mismatch
compare_values valid_time (bool x) (bool y) = ok (decide_comparison (bool_equal x y) (not x && y))
compare_values valid_time (bool x) _ = err type_mismatch
compare_values valid_time null _ = err unsupported_type
compare_values valid_time phantom _ = err unsupported_type
compare_values valid_time (duration d) _ = err unsupported_type
compare_values valid_time (tuple vs) _ = err unsupported_type
compare_values valid_time (object fs) _ = err unsupported_type
compare_values valid_time zero_value _ = panic
