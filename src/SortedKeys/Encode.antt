-- ===== src/SortedKeys/Encode.antt =====
-- sorted_keys.go: `MonotonicMarshal` and the marshalling functions of the single types.
use octosql.Base.{
  ℕ, ◌+◌, ◌-◌, ◌/◌, ◌%◌, Bool, List, [], ◌∷◌, ◌++◌, map, Bytes, bytes_less, Outcome, ok, panic,
  ◌>>=◌, if◌then◌else◌, ltb,
}
use octosql.Base.Int.{word_mod, sign_bit}
use octosql.Value.{
  Value, Values, Fields, zero_value, null, phantom, int, float, bool, string, time, duration, tuple,
  object, nil, cons, no_fields, field,
}
use octosql.SortedKeys.Words.{put_uint64}

-- The identifiers and the delimiters.
abbrev pub null_identifier : ℕ
null_identifier = 1

abbrev pub phantom_identifier : ℕ
phantom_identifier = 2

abbrev pub int_identifier : ℕ
int_identifier = 3

abbrev pub float_identifier : ℕ
float_identifier = 4

abbrev pub bool_identifier : ℕ
bool_identifier = 5

abbrev pub string_identifier : ℕ
string_identifier = 6

abbrev pub timestamp_identifier : ℕ
timestamp_identifier = 7

abbrev pub duration_identifier : ℕ
duration_identifier = 8

abbrev pub tuple_identifier : ℕ
tuple_identifier = 9

abbrev pub object_identifier : ℕ
object_identifier = 10

abbrev pub string_delimiter : ℕ
string_delimiter = 11

abbrev pub tuple_delimiter : ℕ
tuple_delimiter = 12

-- `i ^ math.MinInt64` on the pattern of `i`, and the complement of all bits.
abbrev pub flip_sign : ℕ → ℕ
flip_sign w = (w + sign_bit) % word_mod

abbrev pub flip_all : ℕ → ℕ
flip_all w = word_mod - 1 - w

unfoldable pub marshal_int64 : ℕ → Bytes
marshal_int64 i = int_identifier ∷ put_uint64 (flip_sign i)

-- `t` is all ones for a negative pattern, and the sign bit otherwise.
unfoldable pub marshal_float : ℕ → Bytes
marshal_float bits =
    float_identifier ∷ put_uint64 (if ltb bits sign_bit then flip_sign bits else flip_all bits)

unfoldable pub marshal_bool : Bool → Bytes
marshal_bool b = bool_identifier ∷ (if b then 1 else 0) ∷ []

unfoldable pub byte_to_two_bytes : ℕ → Bytes
byte_to_two_bytes b = (128 + b / 128) ∷ (128 + b % 128) ∷ []

unfoldable pub pack_bytes : Bytes → Bytes
unfolding byte_to_two_bytes
pack_bytes [] = []
pack_bytes (b ∷ s) = byte_to_two_bytes b ++ pack_bytes s

unfoldable pub marshal_string : Bytes → Bytes
marshal_string s = string_identifier ∷ (pack_bytes s ++ string_delimiter ∷ [])

-- The two numbers without their integer identifiers, each behind a timestamp identifier.
unfoldable pub marshal_time : ℕ → ℕ → Bytes
marshal_time seconds nanoseconds =
    timestamp_identifier
    ∷ (put_uint64 (flip_sign seconds) ++ timestamp_identifier ∷ put_uint64 (flip_sign nanoseconds))

unfoldable pub marshal_duration : ℕ → Bytes
marshal_duration d = duration_identifier ∷ put_uint64 (flip_sign d)

-- The keys of a map with the bytes of their values, put in order: `sort.Strings` on the keys.
abbrev pub Entries : Type 0
Entries = List (Bytes × Bytes)

unfoldable pub insert_entry : Bytes → Bytes → Entries → Entries
insert_entry k b [] = (k, b) ∷ []
insert_entry k b ((k', b') ∷ es) =
    if bytes_less k' k then (k', b') ∷ insert_entry k b es else (k, b) ∷ (k', b') ∷ es

unfoldable pub sort_entries : Entries → Entries
unfolding insert_entry
sort_entries [] = []
sort_entries ((k, b) ∷ es) = insert_entry k b (sort_entries es)

-- The tuple of a key, its value, the next key and so on.
unfoldable pub concat_entries : Entries → Bytes
unfolding marshal_string
concat_entries [] = []
concat_entries ((k, b) ∷ es) = marshal_string k ++ (b ++ concat_entries es)

-- `monotonicMarshal`, `MonotonicMarshalTuple` and `MarshalObject`. A zero value panics.
unfoldable mutual
  unfolding marshal_int64 marshal_float marshal_bool marshal_string marshal_time marshal_duration
      sort_entries concat_entries

  pub monotonic_marshal : Value → Outcome Bytes
  monotonic_marshal zero_value = panic
  monotonic_marshal null = ok (null_identifier ∷ [])
  monotonic_marshal phantom = ok (phantom_identifier ∷ [])
  monotonic_marshal (int i) = ok (marshal_int64 i)
  monotonic_marshal (float bits) = ok (marshal_float bits)
  monotonic_marshal (bool b) = ok (marshal_bool b)
  monotonic_marshal (string s) = ok (marshal_string s)
  monotonic_marshal (time s n) = ok (marshal_time s n)
  monotonic_marshal (duration d) = ok (marshal_duration d)
  monotonic_marshal (tuple vs) = do
    bytes ← marshal_values vs
    ok (tuple_identifier ∷ (bytes ++ tuple_delimiter ∷ []))
  monotonic_marshal (object fs) = do
    entries ← marshal_fields fs
    ok (
        object_identifier
        ∷ tuple_identifier
        ∷ (concat_entries (sort_entries entries) ++ tuple_delimiter ∷ []))

  pub marshal_values : Values → Outcome Bytes
  marshal_values nil = ok []
  marshal_values (cons v vs) = do
    bytes ← monotonic_marshal v
    rest ← marshal_values vs
    ok (bytes ++ rest)

  pub marshal_fields : Fields → Outcome Entries
  marshal_fields no_fields = ok []
  marshal_fields (field k v fs) = do
    bytes ← monotonic_marshal v
    rest ← marshal_fields fs
    ok ((k, bytes) ∷ rest)

-- `ReversedMonotonicMarshal`: every byte complemented, and a byte 255 behind them.
unfoldable pub reversed_monotonic_marshal : Value → Outcome Bytes
unfolding monotonic_marshal
reversed_monotonic_marshal v = do
  marshal ← monotonic_marshal v
  ok (map (λ x. 255 - x) marshal ++ 255 ∷ [])
