-- ===== src/SortedKeys/Tests.antt =====
-- Applications of the theorems on the encoding of sorted_keys.go to values and bytes.
use octosql.Base.{
  ℕ, ◌++◌, map, Bool, true, ◌≡◌, ◌≢◌, ◌-◌, refl, [], ◌∷◌, Bytes, ok, err, arith, out_of_fuel,
}
use octosql.Base.Int.{word_mod}
use octosql.Base.ByteOrder.{bytes_below}
use octosql.Value.{
  Value, Values, int, string, bool, tuple, object, nil, cons, field, no_fields, compare_values,
}
use octosql.SortedKeys.{
  monotonic_marshal, reversed_monotonic_marshal, monotonic_unmarshal, put_uint64, pack_bytes,
  byte_to_two_bytes,
}
use octosql.SortedKeys.RoundTrip.{
  monotonic_unmarshal-monotonic_marshal, monotonic_marshal-injective,
}
use octosql.SortedKeys.Reading.{IsStorable}
use octosql.SortedKeys.Fuel.{monotonic_unmarshal-ne-out_of_fuel}
use octosql.SortedKeys.Order.{
  monotonic_marshal-below, monotonic_marshal-below_tuple, reversed_monotonic_marshal-below,
}

-- A `valid_time` that accepts every time.
abbrev any_time : ℕ → ℕ → Bool
any_time s n = true

-- (5, "ab", {"k": true}).
abbrev row : Value
row = tuple (
    cons (int 5)
      (cons (string (97 ∷ 98 ∷ [])) (cons (object (field (107 ∷ []) (bool true) no_fields)) nil)))

row-IsStorable : IsStorable any_time row
row-IsStorable =
    (omega arith, ((omega arith, (omega arith, tt)), ((tt, ((omega arith, tt), tt, tt)), tt)))

monotonic_unmarshal-monotonic_marshal_example :
    (bs : Bytes) × (monotonic_marshal row ≡ ok bs) × (monotonic_unmarshal any_time bs ≡ ok row)
monotonic_unmarshal-monotonic_marshal_example =
    monotonic_unmarshal-monotonic_marshal any_time row row-IsStorable (λ e. cc)

monotonic_marshal-injective_example : row ≡ row
monotonic_marshal-injective_example =
    monotonic_marshal-injective any_time row row row-IsStorable row-IsStorable refl

-- A tuple that is cut off.
monotonic_unmarshal-ne-out_of_fuel_example :
    monotonic_unmarshal any_time (9 ∷ 9 ∷ 9 ∷ 3 ∷ 0 ∷ []) ≢ err out_of_fuel
monotonic_unmarshal-ne-out_of_fuel_example =
    monotonic_unmarshal-ne-out_of_fuel any_time (9 ∷ 9 ∷ 9 ∷ 3 ∷ 0 ∷ [])

-- -1 before 1.
abbrev encoded_minus_one : Bytes
encoded_minus_one = 3 ∷ 127 ∷ 255 ∷ 255 ∷ 255 ∷ 255 ∷ 255 ∷ 255 ∷ 255 ∷ []

abbrev encoded_one : Bytes
encoded_one = 3 ∷ 128 ∷ 0 ∷ 0 ∷ 0 ∷ 0 ∷ 0 ∷ 0 ∷ 1 ∷ []

monotonic_marshal-below_example : bytes_below encoded_minus_one encoded_one ≡ true
unfolding compare_values monotonic_marshal put_uint64
monotonic_marshal-below_example =
    monotonic_marshal-below any_time (int (word_mod - 1)) (int 1) {bx = encoded_minus_one}
      {by = encoded_one} (omega arith) (omega arith) refl refl refl

-- ("a", -1) before ("a", 1), although the second tuple is the shorter one.
abbrev prefix : Values
prefix = cons (string (97 ∷ [])) nil

abbrev encoded_a : Bytes
encoded_a = 6 ∷ 128 ∷ 225 ∷ 11 ∷ []

monotonic_marshal-below_tuple_example :
    bytes_below
      (9 ∷ (encoded_a ++ (encoded_minus_one ++ (encoded_one ++ 12 ∷ []))))
      (9 ∷ (encoded_a ++ (encoded_one ++ 12 ∷ [])))
    ≡ true
unfolding compare_values monotonic_marshal put_uint64 pack_bytes byte_to_two_bytes
monotonic_marshal-below_tuple_example =
    monotonic_marshal-below_tuple any_time (int (word_mod - 1)) (int 1) (omega arith) (omega arith)
      refl prefix (cons (int 1) nil) nil refl refl

reversed_monotonic_marshal-below_example :
    bytes_below
      (map (λ c. 255 - c) encoded_one ++ 255 ∷ [])
      (map (λ c. 255 - c) encoded_minus_one ++ 255 ∷ [])
    ≡ true
unfolding compare_values monotonic_marshal reversed_monotonic_marshal put_uint64
reversed_monotonic_marshal-below_example =
    reversed_monotonic_marshal-below any_time (int (word_mod - 1)) (int 1) (omega arith)
      (omega arith) refl refl refl
