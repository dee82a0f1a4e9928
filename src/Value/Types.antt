-- ===== src/Value/Types.antt =====
-- values.go: `Value`, the tags of `Type`, and `GetType`.
use octosql.Base.{◌==◌, ℕ, ◌<◌, Bool, List, [], ◌∷◌, Bytes, IsBytes}
use octosql.Base.Int.{word_mod}

-- A protobuf `Value` with its oneof. An `int` is a 64-bit word, a `float` the IEEE bit pattern, a
-- `time` its Unix seconds (a word) and nanoseconds, a `duration` its nanoseconds (a word). A Go map
-- is the list of its entries.
mutual
  pub data Value : Type 0 where
    zero_value null phantom : Value
    int : ℕ → Value
    float : ℕ → Value
    bool : Bool → Value
    string : Bytes → Value
    time : ℕ → ℕ → Value
    duration : ℕ → Value
    tuple : Values → Value
    object : Fields → Value

  pub data Values : Type 0 where
    nil : Values
    cons : Value → Values → Values

  pub data Fields : Type 0 where
    no_fields : Fields
    field : Bytes → Value → Fields → Fields

-- The constants of `Type`.
pub data ValueType : Type 0 where
  type_zero type_null type_phantom type_int type_float type_bool type_string : ValueType
  type_time type_duration type_tuple type_object : ValueType

unfoldable pub get_type : Value → ValueType
get_type zero_value = type_zero
get_type null = type_null
get_type phantom = type_phantom
get_type (int w) = type_int
get_type (float b) = type_float
get_type (bool b) = type_bool
get_type (string s) = type_string
get_type (time s n) = type_time
get_type (duration d) = type_duration
get_type (tuple vs) = type_tuple
get_type (object fs) = type_object

-- The number of a type constant, for Go's `==` on `Type`.
abbrev pub type_number : ValueType → ℕ
type_number type_zero = 0
type_number type_null = 1
type_number type_phantom = 2
type_number type_int = 3
type_number type_float = 4
type_number type_bool = 5
type_number type_string = 6
type_number type_time = 7
type_number type_duration = 8
type_number type_tuple = 9
type_number type_object = 10

-- The test of two types for equality, as `leftValue.GetType() != rightValue.GetType()` has it.
abbrev pub same_type : Value → Value → Bool
unfolding get_type
same_type v w = type_number (get_type v) == type_number (get_type w)

-- `AsSlice`, of a tuple.
abbrev pub as_slice : Values → List Value
as_slice nil = []
as_slice (cons v vs) = v ∷ as_slice vs

-- `MakeTuple`.
abbrev pub make_tuple : List Value → Values
make_tuple [] = nil
make_tuple (v ∷ vs) = cons v (make_tuple vs)

-- The ranges that the Go types impose: words of 64 bits, bytes, nanoseconds below a second.
abbrev mutual
  pub InRange : Value → Type 0
  InRange zero_value = Unit
  InRange null = Unit
  InRange phantom = Unit
  InRange (int w) = w < word_mod
  InRange (float b) = b < word_mod
  InRange (bool b) = Unit
  InRange (string s) = IsBytes s
  InRange (time s n) = (s < word_mod) × (n < 1_000_000_000)
  InRange (duration d) = d < word_mod
  InRange (tuple vs) = AllInRange vs
  InRange (object fs) = FieldsInRange fs

  pub AllInRange : Values → Type 0
  AllInRange nil = Unit
  AllInRange (cons v vs) = InRange v × AllInRange vs

  pub FieldsInRange : Fields → Type 0
  FieldsInRange no_fields = Unit
  FieldsInRange (field k v fs) = IsBytes k × InRange v × FieldsInRange fs
