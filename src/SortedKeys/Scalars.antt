-- ===== src/SortedKeys/Scalars.antt =====
-- The round trips of the single types of sorted_keys.go, and the lengths that its decoder measures.
use octosql.Base.{
  ℕ, ◌+◌, ◌*◌, ◌<◌, ◌≡◌, refl, ap, Bool, true, [], ◌∷◌, ◌++◌, append_assoc, arith, Bytes, IsBytes,
  length, length-append, ok, ltb, Bool-cases, inl, inr,
}
use octosql.Base.Int.{word_mod, sign_bit}
use octosql.Value.{Value, InRange, null, phantom, int, float, bool, string, time, duration}
use octosql.SortedKeys.Words.{
  put_uint64, uint64-put_uint64, uint64-put_uint64_alone, length-put_uint64,
}
use octosql.SortedKeys.Encode.{
  flip_sign, flip_all, marshal_int64, marshal_float, marshal_bool, marshal_string, marshal_time,
  marshal_duration, pack_bytes, string_delimiter,
}
use octosql.SortedKeys.Decode.{
  unmarshal_int64, unmarshal_float, unmarshal_string, unmarshal_time, unmarshal_scalar,
  unpack_bytes, two_bytes_to_byte, last_byte, find_delimiter, get_marshal_length,
  get_string_marshal_length, unix_time,
}

-- Decoding an integer gives it back, whatever the identifier in front of it.
pub unmarshal_int64-put_uint64 :
    (i w : ℕ) (rest : Bytes)
    → w < word_mod
    → unmarshal_int64 (i ∷ (put_uint64 (flip_sign w) ++ rest)) ≡ ok w
unfolding unmarshal_int64
unmarshal_int64-put_uint64 i w rest h =
    rw (uint64-put_uint64 (flip_sign w) rest (omega arith)) (ap ok (omega arith))

unmarshal_int64-put_uint64_alone :
    (i w : ℕ) → w < word_mod → unmarshal_int64 (i ∷ put_uint64 (flip_sign w)) ≡ ok w
unfolding unmarshal_int64
unmarshal_int64-put_uint64_alone i w h =
    rw (uint64-put_uint64_alone (flip_sign w) (omega arith)) (ap ok (omega arith))

pub unmarshal_float-marshal_float :
    (w : ℕ) → w < word_mod → unmarshal_float (marshal_float w) ≡ ok w
unfolding unmarshal_float marshal_float
unmarshal_float-marshal_float w h = elim (Bool-cases (ltb w sign_bit)) [
  | inl small ↦ rw (small, uint64-put_uint64_alone (flip_sign w) (omega arith)) (ground arith)
  | inr large ↦ rw (large, uint64-put_uint64_alone (flip_all w) (omega arith)) (ground arith)
]

unpack_bytes-pack_bytes :
    (s : Bytes) → IsBytes s → unpack_bytes (pack_bytes s ++ string_delimiter ∷ []) ≡ s
unfolding unpack_bytes pack_bytes two_bytes_to_byte
unpack_bytes-pack_bytes [] h = refl
unpack_bytes-pack_bytes (b ∷ []) h = ground arith
unpack_bytes-pack_bytes (b ∷ c ∷ s) h = ground (arith, unpack_bytes-pack_bytes (c ∷ s))

length-pack_bytes : (s : Bytes) → length (pack_bytes s) ≡ 2 * length s
unfolding pack_bytes
length-pack_bytes [] = refl
length-pack_bytes (b ∷ s) = omega (arith, length-pack_bytes s)

last_byte-append : (d e : ℕ) (xs : Bytes) → last_byte d (xs ++ e ∷ []) ≡ e
unfolding last_byte
last_byte-append d e [] = refl
last_byte-append d e (x ∷ xs) = last_byte-append x e xs

pub unmarshal_string-marshal_string :
    (s : Bytes) → IsBytes s → unmarshal_string (marshal_string s) ≡ ok s
unfolding unmarshal_string marshal_string
unmarshal_string-marshal_string s h = ground (
  arith,
  length-append (pack_bytes s) (string_delimiter ∷ []),
  length-pack_bytes s,
  last_byte-append 6 string_delimiter (pack_bytes s),
  unpack_bytes-pack_bytes s,
)

-- The packed bytes of a string are at least 128, so the first delimiter is the one that ends it.
find_delimiter-pack_bytes :
    (s rest : Bytes) (index : ℕ)
    → find_delimiter (pack_bytes s ++ string_delimiter ∷ rest) index
      ≡ ok (index + length (pack_bytes s) + 1)
unfolding find_delimiter pack_bytes
find_delimiter-pack_bytes [] rest index = ap ok (omega arith)
find_delimiter-pack_bytes (b ∷ s) rest index =
    ground (arith, find_delimiter-pack_bytes s rest (index + 1 + 1))

-- What the decoder of a tuple needs of the encoding of a scalar: the bytes from it on tell its
-- length, its first byte is none of the three that it handles itself, and it decodes.
pub record ReadsScalar (valid_time : ℕ → ℕ → Bool) (v : Value) (bs : Bytes) : Type 0 where
  pub measured : (rest : Bytes) → get_marshal_length (bs ++ rest) ≡ ok (length bs)
  pub decoded : unmarshal_scalar valid_time bs ≡ ok v
  pub head : ℕ
  pub others : Bytes
  pub split : bs ≡ head ∷ others
  pub plain : head < 9

string_length :
    (s rest : Bytes)
    → get_string_marshal_length (marshal_string s ++ rest) ≡ ok (length (marshal_string s))
unfolding get_string_marshal_length marshal_string pack_bytes
string_length [] rest = refl
string_length (b ∷ s) rest = ground (
  arith,
  find_delimiter-pack_bytes s rest 3,
  append_assoc (pack_bytes s) (string_delimiter ∷ []) rest,
  length-append (pack_bytes s) (string_delimiter ∷ []),
)

unix_time-normal : (s n : ℕ) → s < word_mod → n < 1_000_000_000 → unix_time s n ≡ (s, n)
unfolding unix_time
unix_time-normal s n hs hn = ground arith

module _ (valid_time : ℕ → ℕ → Bool) where
  unmarshal_time-marshal_time :
      (s n : ℕ)
      → s < word_mod
      → n < 1_000_000_000
      → valid_time s n ≡ true
      → unmarshal_time valid_time (marshal_time s n) ≡ ok (time s n)
  unfolding unmarshal_time marshal_time put_uint64
  unmarshal_time-marshal_time s n hs hn valid =
      let first = unmarshal_int64-put_uint64_alone 7 s hs in
      let second = unmarshal_int64-put_uint64_alone 7 n (omega arith) in
      rw (first, second, unix_time-normal s n hs hn, valid)

  pub ReadsScalar-null : ReadsScalar valid_time null (1 ∷ [])
  unfolding get_marshal_length unmarshal_scalar
  ReadsScalar-null = record {
    measured = λ rest. refl;
    decoded = refl;
    head = _;
    others = _;
    split = refl;
    plain = omega arith;
  }

  pub ReadsScalar-phantom : ReadsScalar valid_time phantom (2 ∷ [])
  unfolding get_marshal_length unmarshal_scalar
  ReadsScalar-phantom = record {
    measured = λ rest. refl;
    decoded = refl;
    head = _;
    others = _;
    split = refl;
    plain = omega arith;
  }

  pub ReadsScalar-int : (w : ℕ) → w < word_mod → ReadsScalar valid_time (int w) (marshal_int64 w)
  unfolding marshal_int64 get_marshal_length unmarshal_scalar
  ReadsScalar-int w h = record {
    measured = λ rest. rw length-put_uint64;
    decoded =
        rw (uint64-put_uint64_alone (flip_sign w) (omega arith))
          (ap (λ x. ok (int x)) (omega arith));
    head = _;
    others = _;
    split = refl;
    plain = omega arith;
  }

  pub ReadsScalar-duration :
      (w : ℕ) → w < word_mod → ReadsScalar valid_time (duration w) (marshal_duration w)
  unfolding marshal_duration get_marshal_length unmarshal_scalar
  ReadsScalar-duration w h = record {
    measured = λ rest. rw length-put_uint64;
    decoded =
        rw (uint64-put_uint64_alone (flip_sign w) (omega arith))
          (ap (λ x. ok (duration x)) (omega arith));
    head = _;
    others = _;
    split = refl;
    plain = omega arith;
  }

  pub ReadsScalar-float :
      (w : ℕ) → w < word_mod → ReadsScalar valid_time (float w) (marshal_float w)
  unfolding marshal_float get_marshal_length unmarshal_scalar
  ReadsScalar-float w h = record {
    measured = λ rest. rw length-put_uint64;
    decoded = rw (unmarshal_float-marshal_float w h);
    head = _;
    others = _;
    split = refl;
    plain = omega arith;
  }

  pub ReadsScalar-bool : (b : Bool) → ReadsScalar valid_time (bool b) (marshal_bool b)
  unfolding marshal_bool get_marshal_length unmarshal_scalar
  ReadsScalar-bool b = record {
    measured = λ rest. refl;
    decoded = ground arith;
    head = _;
    others = _;
    split = refl;
    plain = omega arith;
  }

  pub ReadsScalar-string :
      (s : Bytes) → IsBytes s → ReadsScalar valid_time (string s) (marshal_string s)
  unfolding marshal_string get_marshal_length unmarshal_scalar
  ReadsScalar-string s h = record {
    measured = string_length s;
    decoded = rw (unmarshal_string-marshal_string s h);
    head = _;
    others = _;
    split = refl;
    plain = omega arith;
  }

  pub ReadsScalar-time :
      (s n : ℕ)
      → InRange (time s n)
      → valid_time s n ≡ true
      → ReadsScalar valid_time (time s n) (marshal_time s n)
  unfolding marshal_time get_marshal_length unmarshal_scalar put_uint64
  ReadsScalar-time s n (hs, hn) valid = record {
    measured = λ rest. refl;
    decoded = unmarshal_time-marshal_time s n hs hn valid;
    head = _;
    others = _;
    split = refl;
    plain = omega arith;
  }
