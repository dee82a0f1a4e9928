-- ===== src/Value/Order.antt =====
-- What `Compare` of values.go promises: an order on the values of each comparable type, and an
-- error or a panic outside them.
use octosql.Base.{
  ℕ, ◌<◌, ◌≡◌, ◌≢◌, ◌↔◌, ◌⊎◌, Bool, true, false, arith, ok, err, panic, bytes_equal_iff, Outcome,
  type_mismatch, unsupported_type,
}
use octosql.Base.Int.{word_mod}
use octosql.Base.ByteOrder.{bytes_less_trans, bytes_less-swap, bytes_equal_comm, bytes_less_irrefl}
use octosql.Value.Types.{
  Value, int, float, bool, string, time, zero_value, InRange, get_type, type_time,
}
use octosql.Value.Comparing.{
  Comparison, less_than, equal, greater_than, compare_values, is_nan, decide_comparison, float_less,
  float_equal,
}

abbrev pub is_ok {ℓ} : {A : Type ℓ} → Outcome A → Bool
is_ok (ok a) = true
is_ok (err e) = false
is_ok panic = false

abbrev pub opposite : Comparison → Comparison
opposite less_than = greater_than
opposite equal = equal
opposite greater_than = less_than

abbrev pub NotNan : Value → Type 0
NotNan (float b) = is_nan b ≡ false
NotNan _ = Unit

float-swap :
    (x y : ℕ)
    → is_nan x ≡ false
    → is_nan y ≡ false
    → x < word_mod
    → y < word_mod
    → decide_comparison (float_equal y x) (float_less y x)
      ≡ opposite (decide_comparison (float_equal x y) (float_less x y))
float-swap x y hx hy rx ry = ground arith

-- Where `Compare` of two values in range, neither of them a NaN, gives an answer, it gives the
-- opposite answer on the exchanged values.
pub compare_values-swap :
    (valid_time : ℕ → ℕ → Bool) (x y : Value) (c : Comparison)
    → InRange x
    → InRange y
    → NotNan x
    → NotNan y
    → compare_values valid_time x y ≡ ok c
    → compare_values valid_time y x ≡ ok (opposite c)
unfolding compare_values
compare_values-swap vt (int x) (int y) c rx ry nx ny h = ground arith
compare_values-swap vt (float x) (float y) c rx ry nx ny h =
    ground (arith, float-swap x y nx ny rx ry)
compare_values-swap vt (string x) (string y) c rx ry nx ny h =
    ground (arith, bytes_equal_comm x y, bytes_less-swap x y)
compare_values-swap vt (time s n) (time s' n') c rx ry nx ny h = ground arith
compare_values-swap vt (bool x) (bool y) c rx ry nx ny h = ground arith
compare_values-swap vt _ _ c rx ry nx ny h = cc

-- `Compare` is transitive on values in range: a value less than a second, itself less than a
-- third, is less than the third.
pub compare_values_trans :
    (valid_time : ℕ → ℕ → Bool) (x y z : Value)
    → InRange x
    → InRange y
    → InRange z
    → compare_values valid_time x y ≡ ok less_than
    → compare_values valid_time y z ≡ ok less_than
    → compare_values valid_time x z ≡ ok less_than
unfolding compare_values
compare_values_trans vt (int x) (int y) (int z) rx ry rz h k = ground arith
compare_values_trans vt (float x) (float y) (float z) rx ry rz h k = ground arith
compare_values_trans vt (string x) (string y) (string z) rx ry rz h k =
    ground
      (arith, bytes_less_trans x y z, bytes_less_irrefl x, bytes_equal_iff x z, bytes_less-swap x y)
compare_values_trans vt (time s n) (time s' n') (time s'' n'') rx ry rz h k = ground arith
compare_values_trans vt (bool x) (bool y) (bool z) rx ry rz h k = ground arith
compare_values_trans vt _ _ _ rx ry rz h k = cc

-- The types that `Compare` sorts by.
abbrev pub IsComparable : Value → Type 0
IsComparable (int w) = Unit
IsComparable (float b) = Unit
IsComparable (string s) = Unit
IsComparable (time s n) = Unit
IsComparable (bool b) = Unit
IsComparable _ = ⊥

-- No time that protobuf refuses.
abbrev pub IsAccepted : (ℕ → ℕ → Bool) → Value → Type 0
IsAccepted valid_time (time s n) = valid_time s n ≡ true
IsAccepted valid_time _ = Unit

-- `Compare` answers exactly where the first value is of a type that it sorts and the second value
-- has the same type, and neither is a time that protobuf refuses. It fails with the type mismatch
-- exactly on a first value of a sorted type and a second of another type, with the unsupported type
-- exactly on a first value of another type that is not the zero value, and it panics exactly on a
-- first value that is the zero value and on two times of which protobuf refuses one.
pub compare_values_answers :
    (valid_time : ℕ → ℕ → Bool) (x y : Value)
    → ((is_ok (compare_values valid_time x y) ≡ true) ↔ (
        IsComparable x
        × (get_type x ≡ get_type y)
        × IsAccepted valid_time x
        × IsAccepted valid_time y))
      × ((compare_values valid_time x y ≡ err type_mismatch)
          ↔ (IsComparable x × (get_type x ≢ get_type y)))
      × ((compare_values valid_time x y ≡ err unsupported_type)
          ↔ (¬ IsComparable x × (x ≢ zero_value)))
      × ((compare_values valid_time x y ≡ panic) ↔ (
          (x ≡ zero_value)
          ⊎ ((get_type x ≡ type_time)
              × (get_type y ≡ type_time)
              × ¬ (IsAccepted valid_time x × IsAccepted valid_time y))))
unfolding compare_values get_type
compare_values_answers vt x y = ground arith

-- A NaN on either side is reported as the greater one, so both orders of a NaN and a float give
-- `GreaterThan`.
pub compare_values-nan :
    (valid_time : ℕ → ℕ → Bool) (x y : ℕ)
    → is_nan x ≡ true
    → (compare_values valid_time (float x) (float y) ≡ ok greater_than)
      × (compare_values valid_time (float y) (float x) ≡ ok greater_than)
unfolding compare_values
compare_values-nan vt x y h = ground arith
