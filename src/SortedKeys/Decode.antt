-- ===== src/SortedKeys/Decode.antt =====
-- sorted_keys.go: `MonotonicUnmarshal` and the functions below it. A slice has no capacity beyond
-- its length, so that slicing past its end panics.
use octosql.Base.{
  ℕ, zero, suc, ◌+◌, ◌-◌, ◌*◌, ◌/◌, ◌%◌, Bool, true, false, [], ◌∷◌, ◌||◌, not, Bytes, bytes_equal,
  Outcome, ok, err, panic, ◌>>=◌, if◌then◌else◌, ltb, ◌==◌, length, take, drop, bad_size, bad_byte,
  missing_delimiter, unknown_identifier, bad_object, out_of_fuel,
}
use octosql.Base.Int.{word_mod, sign_bit}
use octosql.Value.{
  Value, Values, Fields, null, phantom, int, float, bool, string, time, duration, tuple, object,
  nil, cons, no_fields, field,
}
use octosql.SortedKeys.Words.{uint64}
use octosql.SortedKeys.Encode.{
  null_identifier, phantom_identifier, int_identifier, float_identifier, bool_identifier,
  string_identifier, timestamp_identifier, duration_identifier, tuple_identifier, object_identifier,
  string_delimiter, tuple_delimiter, flip_sign, flip_all,
}

unfoldable pub unmarshal_int64 : Bytes → Outcome ℕ
unfolding uint64
unmarshal_int64 b = do i ← uint64 (drop 1 b); ok (flip_sign i)

unfoldable pub unmarshal_float : Bytes → Outcome ℕ
unfolding uint64
unmarshal_float b = do
  i ← uint64 (drop 1 b)
  ok (if ltb i sign_bit then flip_all i else flip_sign i)

unfoldable pub unmarshal_null : Bytes → Outcome Value
unmarshal_null (b ∷ []) = if b == null_identifier then ok null else err bad_byte
unmarshal_null _ = err bad_size

unfoldable pub unmarshal_phantom : Bytes → Outcome Value
unmarshal_phantom (b ∷ []) = if b == phantom_identifier then ok phantom else err bad_byte
unmarshal_phantom _ = err bad_size

unfoldable pub unmarshal_bool : Bytes → Outcome Bool
unmarshal_bool (_ ∷ b ∷ []) = if b == 0 then ok false else if b == 1 then ok true else err bad_byte
unmarshal_bool _ = err bad_size

-- On bytes: every operation wraps at 256.
unfoldable pub two_bytes_to_byte : ℕ → ℕ → ℕ
two_bytes_to_byte x y = (128 * ((x + 128) % 256) + (y + 128) % 256) % 256

-- The pairs before the last byte.
unfoldable pub unpack_bytes : Bytes → Bytes
unfolding two_bytes_to_byte
unpack_bytes (x ∷ y ∷ z ∷ rest) = two_bytes_to_byte x y ∷ unpack_bytes (z ∷ rest)
unpack_bytes _ = []

unfoldable pub last_byte : ℕ → Bytes → ℕ
last_byte d [] = d
last_byte d (b ∷ bs) = last_byte b bs

unfoldable pub unmarshal_string : Bytes → Outcome Bytes
unfolding unpack_bytes last_byte
unmarshal_string b =
    if not (length b % 2 == 0) || ltb (length b) 2
    then err bad_size
    else if not (last_byte 0 b == string_delimiter)
    then err bad_byte
    else ok (unpack_bytes (drop 1 b))

-- `time.Unix`: nanoseconds outside a second are carried over to the seconds, rounding down.
unfoldable pub unix_time : ℕ → ℕ → ℕ × ℕ
unix_time sec nsec =
    if ltb nsec sign_bit
    then ((sec + nsec / 1_000_000_000) % word_mod, nsec % 1_000_000_000)
    else (let below = word_mod - nsec in
        let carry = (below + 999_999_999) / 1_000_000_000 in
        ((sec + word_mod - carry) % word_mod, carry * 1_000_000_000 - below))

-- The keys of Go maps: an entry is written over, or added.
unfoldable pub set_field : Bytes → Value → Fields → Fields
set_field k v no_fields = field k v no_fields
set_field k v (field k' v' fs) =
    if bytes_equal k' k then field k v fs else field k' v' (set_field k v fs)

-- `GetString_`: the empty string where the value is no string.
abbrev pub as_string : Value → Bytes
as_string (string s) = s
as_string _ = []

unfoldable pub pair_up : Values → Fields → Outcome Fields
unfolding set_field
pair_up nil fs = ok fs
pair_up (cons k nil) fs = err bad_object
pair_up (cons k (cons v vs)) fs = pair_up vs (set_field (as_string k) v fs)

unfoldable pub tuple_to_object : Values → Outcome Fields
unfolding pair_up
tuple_to_object nil = err bad_object
tuple_to_object (cons v vs) = pair_up (cons v vs) no_fields

-- The length of the first string in the bytes, its delimiter included.
unfoldable pub find_delimiter : Bytes → ℕ → Outcome ℕ
find_delimiter [] index = err missing_delimiter
find_delimiter (b ∷ bs) index =
    if b == string_delimiter then ok (index + 1) else find_delimiter bs (index + 1)

unfoldable pub get_string_marshal_length : Bytes → Outcome ℕ
unfolding find_delimiter
get_string_marshal_length (b ∷ c ∷ bs) =
    if b == string_identifier then find_delimiter (c ∷ bs) 1 else err bad_byte
get_string_marshal_length _ = err bad_size

unfoldable pub is_constant_length_identifier : ℕ → Bool
is_constant_length_identifier i =
    i == null_identifier
    || i == phantom_identifier
    || i == int_identifier
    || i == bool_identifier
    || i == float_identifier
    || i == timestamp_identifier
    || i == duration_identifier

unfoldable pub get_constant_marshal_length : ℕ → Outcome ℕ
get_constant_marshal_length i =
    if i == null_identifier || i == phantom_identifier
    then ok 1
    else if i == timestamp_identifier
    then ok 18
    else if i == int_identifier || i == float_identifier || i == duration_identifier
    then ok 9
    else if i == bool_identifier
    then ok 2
    else err unknown_identifier

unfoldable pub get_marshal_length : Bytes → Outcome ℕ
unfolding is_constant_length_identifier get_constant_marshal_length get_string_marshal_length
get_marshal_length [] = panic
get_marshal_length (i ∷ bs) =
    if is_constant_length_identifier i
    then get_constant_marshal_length i
    else if i == string_identifier
    then get_string_marshal_length (i ∷ bs)
    else err unknown_identifier

-- `TimestampProto` accepts a time or makes `MakeTime` panic: `valid_time` stands for its check.
module _ (valid_time : ℕ → ℕ → Bool) where
  unfoldable pub make_time : ℕ × ℕ → Outcome Value
  make_time (s, n) = if valid_time s n then ok (time s n) else panic

  unfoldable pub unmarshal_time : Bytes → Outcome Value
  unfolding make_time
  unmarshal_time b = if ltb (length b) 9 then panic else do
    seconds ← unmarshal_int64 (take 9 b)
    if ltb (length b) 18 then panic else do
      nanoseconds ← unmarshal_int64 (take 9 (drop 9 b))
      make_time (unix_time seconds nanoseconds)

  -- The cases of `MonotonicUnmarshal` other than tuples and objects. Any other identifier panics.
  unfoldable pub unmarshal_scalar : Bytes → Outcome Value
  unfolding unmarshal_null unmarshal_phantom unmarshal_int64 unmarshal_float unmarshal_bool
      unmarshal_string unmarshal_time unix_time
  unmarshal_scalar [] = err bad_size
  unmarshal_scalar (i ∷ bs) =
      if i == null_identifier
      then unmarshal_null (i ∷ bs)
      else if i == phantom_identifier
      then unmarshal_phantom (i ∷ bs)
      else if i == int_identifier
      then (do w ← unmarshal_int64 (i ∷ bs); ok (int w))
      else if i == float_identifier
      then (do w ← unmarshal_float (i ∷ bs); ok (float w))
      else if i == bool_identifier
      then (do b ← unmarshal_bool (i ∷ bs); ok (bool b))
      else if i == string_identifier
      then (do s ← unmarshal_string (i ∷ bs); ok (string s))
      else if i == timestamp_identifier
      then unmarshal_time (i ∷ bs)
      else if i == duration_identifier
      then (do w ← unmarshal_int64 (i ∷ bs); ok (duration w))
      else panic

  -- `recursiveMonotonicUnmarshalTuple` and its loop, at the bytes `b[index:]`. The number is that of
  -- the bytes read.
  unfoldable mutual
    unfolding unmarshal_scalar get_marshal_length tuple_to_object

    pub unmarshal_tuple : ℕ → Bytes → Outcome (Values × ℕ)
    unmarshal_tuple zero b = err out_of_fuel
    unmarshal_tuple (suc f) b = elim (ltb (length b) 3) [
      | true ↦ err bad_size
      | false ↦ unmarshal_elements f (drop 1 b) 1
    ]

    pub unmarshal_elements : ℕ → Bytes → ℕ → Outcome (Values × ℕ)
    unmarshal_elements zero rest index = err out_of_fuel
    unmarshal_elements (suc f) [] index = err missing_delimiter
    unmarshal_elements (suc f) (i ∷ bs) index =
        let nested = (do
          (vs, n) ← unmarshal_tuple f (i ∷ bs)
          (more, m) ← unmarshal_elements f (drop n (i ∷ bs)) (index + n)
          ok (cons (tuple vs) more, m)) in
        let keyed = (do
          (vs, n) ← unmarshal_tuple f bs
          fs ← tuple_to_object vs
          (more, m) ← unmarshal_elements f (drop n bs) (index + (n + 1))
          ok (cons (object fs) more, m)) in
        let scalar = (do
          n ← get_marshal_length (i ∷ bs)
          if ltb (length (i ∷ bs)) n then panic else do
            v ← unmarshal_scalar (take n (i ∷ bs))
            (more, m) ← unmarshal_elements f (drop n (i ∷ bs)) (index + n)
            ok (cons v more, m)) in
        if i == tuple_delimiter
        then ok (nil, index + 1)
        else if i == tuple_identifier
        then nested
        else if i == object_identifier
        then keyed
        else scalar

  -- Two steps for each byte are enough: see the laws.
  abbrev pub tuple_fuel : Bytes → ℕ
  tuple_fuel b = 2 * length b + 1

  unfoldable pub monotonic_unmarshal : Bytes → Outcome Value
  unfolding unmarshal_tuple
  monotonic_unmarshal [] = err bad_size
  monotonic_unmarshal (i ∷ bs) =
      if i == tuple_identifier
      then (do (vs, n) ← unmarshal_tuple (tuple_fuel (i ∷ bs)) (i ∷ bs); ok (tuple vs))
      else if i == object_identifier
      then (do
        (vs, n) ← unmarshal_tuple (tuple_fuel bs) bs
        fs ← tuple_to_object vs
        ok (object fs))
      else unmarshal_scalar (i ∷ bs)
