-- ===== src/SortedKeys/Ranges.antt =====
-- The encodings of sorted_keys.go consist of bytes.
use mathlib.Core.Path.{subst}
use octosql.Base.{ℕ, ◌≡◌, Bytes, IsBytes, IsBytes-append, [], ◌∷◌, arith, ok, ok-injective, Bool}
use octosql.Value.{Value, InRange, int, float, bool, string, time, less_than, compare_values}
use octosql.Value.Order.{IsComparable}
use octosql.SortedKeys.Words.{put_uint64, IsBytes-put_uint64}
use octosql.SortedKeys.Encode.{
  flip_sign, marshal_int64, marshal_float, marshal_bool, marshal_string, marshal_time, pack_bytes,
  monotonic_marshal,
}

IsBytes-pack_bytes : (s : Bytes) → IsBytes s → IsBytes (pack_bytes s)
unfolding pack_bytes
IsBytes-pack_bytes [] h = tt
IsBytes-pack_bytes (b ∷ s) h = (omega arith, (omega arith, IsBytes-pack_bytes s h.1))

IsBytes-marshal_string : (s : Bytes) → IsBytes s → IsBytes (marshal_string s)
unfolding marshal_string
IsBytes-marshal_string s h =
    (omega arith, IsBytes-append (pack_bytes s) _ (IsBytes-pack_bytes s h) (omega arith, tt))

IsBytes-marshal_int64 : (w : ℕ) → IsBytes (marshal_int64 w)
unfolding marshal_int64
IsBytes-marshal_int64 w = (omega arith, IsBytes-put_uint64 _ (omega arith))

IsBytes-marshal_float : (w : ℕ) → InRange (float w) → IsBytes (marshal_float w)
unfolding marshal_float
IsBytes-marshal_float w h = (omega arith, IsBytes-put_uint64 _ (ground arith))

IsBytes-marshal_bool : (b : Bool) → IsBytes (marshal_bool b)
unfolding marshal_bool
IsBytes-marshal_bool b = ground arith

IsBytes-marshal_time : (s n : ℕ) → IsBytes (marshal_time s n)
unfolding marshal_time
IsBytes-marshal_time s n = (
  omega arith,
  IsBytes-append (put_uint64 (flip_sign s)) _ (IsBytes-put_uint64 _ (omega arith))
      (omega arith, IsBytes-put_uint64 _ (omega arith)),
)

-- The encoding of a value that `Compare` sorts.
pub scalar-IsBytes :
    (x : Value) {bx : Bytes} → InRange x → IsComparable x → monotonic_marshal x ≡ ok bx → IsBytes bx
unfolding monotonic_marshal
scalar-IsBytes (int w) r c e = subst IsBytes (ok-injective e) (IsBytes-marshal_int64 w)
scalar-IsBytes (float w) r c e = subst IsBytes (ok-injective e) (IsBytes-marshal_float w r)
scalar-IsBytes (string s) r c e = subst IsBytes (ok-injective e) (IsBytes-marshal_string s r)
scalar-IsBytes (time s n) r c e = subst IsBytes (ok-injective e) (IsBytes-marshal_time s n)
scalar-IsBytes (bool b) r c e = subst IsBytes (ok-injective e) (IsBytes-marshal_bool b)
scalar-IsBytes _ r c e = absurd c

pub compared :
    (valid_time : ℕ → ℕ → Bool) (x y : Value)
    → compare_values valid_time x y ≡ ok less_than
    → IsComparable x × IsComparable y
unfolding compare_values
compared valid_time x y h = ground arith
