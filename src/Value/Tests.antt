-- ===== src/Value/Tests.antt =====
-- Applications of the theorems on `Compare` to values.
use octosql.Base.{
  ℕ, ◌≡◌, ◌≢◌, ◌↔◌, ◌⊎◌, Bool, ◌-◌, [], ◌∷◌, refl, ok, err, panic, true, type_mismatch,
  unsupported_type, arith,
}
use octosql.Base.Int.{word_mod}
use octosql.Value.{
  int, float, string, zero_value, get_type, type_time, compare_values, less_than, greater_than,
}
use octosql.Value.Order.{
  compare_values-swap, compare_values_trans, compare_values_answers, compare_values-nan, opposite,
  is_ok, IsComparable, IsAccepted,
}

abbrev any_time : ℕ → ℕ → Bool
any_time s n = true

-- The word of -3.
abbrev minus_three : ℕ
minus_three = word_mod - 3

-- The bits of a NaN, and of 1.0.
abbrev nan : ℕ
nan = 9_221_120_237_041_090_560

abbrev one : ℕ
one = 4_607_182_418_800_017_408

compare_values-swap_example :
    compare_values any_time (int 7) (int minus_three) ≡ ok (opposite less_than)
unfolding compare_values
compare_values-swap_example =
    compare_values-swap any_time (int minus_three) (int 7) less_than (omega arith) (omega arith) tt
      tt refl

compare_values_trans_example :
    compare_values any_time (string (97 ∷ [])) (string (99 ∷ [])) ≡ ok less_than
unfolding compare_values
compare_values_trans_example =
    compare_values_trans any_time (string (97 ∷ [])) (string (97 ∷ 98 ∷ [])) (string (99 ∷ []))
      (omega arith, tt) (omega arith, (omega arith, tt)) (omega arith, tt) refl refl

compare_values_answers_example :
    ((is_ok (compare_values any_time (int 1) (float one)) ≡ true) ↔ (
      IsComparable (int 1)
      × (get_type (int 1) ≡ get_type (float one))
      × IsAccepted any_time (int 1)
      × IsAccepted any_time (float one)))
    × ((compare_values any_time (int 1) (float one) ≡ err type_mismatch)
        ↔ (IsComparable (int 1) × (get_type (int 1) ≢ get_type (float one))))
    × ((compare_values any_time (int 1) (float one) ≡ err unsupported_type)
        ↔ (¬ IsComparable (int 1) × (int 1 ≢ zero_value)))
    × ((compare_values any_time (int 1) (float one) ≡ panic) ↔ (
        (int 1 ≡ zero_value)
        ⊎ ((get_type (int 1) ≡ type_time)
            × (get_type (float one) ≡ type_time)
            × ¬ (IsAccepted any_time (int 1) × IsAccepted any_time (float one)))))
compare_values_answers_example = compare_values_answers any_time (int 1) (float one)

compare_values-nan_example :
    (compare_values any_time (float nan) (float one) ≡ ok greater_than)
    × (compare_values any_time (float one) (float nan) ≡ ok greater_than)
compare_values-nan_example = compare_values-nan any_time nan one refl
