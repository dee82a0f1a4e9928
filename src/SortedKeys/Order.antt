-- ===== src/SortedKeys/Order.antt =====
-- The encoding of sorted_keys.go keeps the order of `Compare`, whatever bytes follow; its reversed
-- form turns the order round.
use octosql.Base.{
  Bool, ℕ, ◌<◌, ◌-◌, ◌≡◌, true, [], ◌∷◌, ◌++◌, map, arith, Bytes, IsBytes, bytes_less, ok,
  >>=-eq-ok, Bool-cases, ◌==◌, inl, inr,
}
use octosql.Base.Int.{word_mod, int_less}
use octosql.Base.ByteOrder.{
  bytes_below, bytes_below-append, bytes_below-prepend, bytes_below-complement,
}
use octosql.Value.{
  Value, Values, InRange, int, float, bool, string, time, tuple, nil, cons, less_than,
  compare_values, float_less,
}
use octosql.SortedKeys.Ranges.{compared, scalar-IsBytes}
use octosql.SortedKeys.Words.{put_uint64, put_uint64-below}
use octosql.SortedKeys.Encode.{
  flip_sign, marshal_float, marshal_time, pack_bytes, string_delimiter, monotonic_marshal,
  marshal_values, reversed_monotonic_marshal,
}

marshal_int64-below :
    (x y : ℕ)
    → x < word_mod
    → y < word_mod
    → int_less x y ≡ true
    → bytes_below (put_uint64 (flip_sign x)) (put_uint64 (flip_sign y)) ≡ true
marshal_int64-below x y rx ry h =
    put_uint64-below (flip_sign x) (flip_sign y) (omega arith) (ground arith)

marshal_float-below :
    (x y : ℕ)
    → x < word_mod
    → y < word_mod
    → float_less x y ≡ true
    → bytes_below (marshal_float x) (marshal_float y) ≡ true
unfolding marshal_float
marshal_float-below x y rx ry h = put_uint64-below _ _ (ground arith) (ground arith)

pack_bytes-below :
    (s t : Bytes)
    → IsBytes s
    → IsBytes t
    → bytes_less s t ≡ true
    → bytes_below (pack_bytes s ++ string_delimiter ∷ []) (pack_bytes t ++ string_delimiter ∷ [])
      ≡ true
unfolding pack_bytes
pack_bytes-below [] [] rs rt h = cc
pack_bytes-below [] (y ∷ t) rs rt h = ground arith
pack_bytes-below (x ∷ s) [] rs rt h = cc
pack_bytes-below (x ∷ s) (y ∷ t) rs rt h = ground (arith, pack_bytes-below s t)

marshal_time-below :
    (valid_time : ℕ → ℕ → Bool) (s n s' n' : ℕ)
    → InRange (time s n)
    → InRange (time s' n')
    → compare_values valid_time (time s n) (time s' n') ≡ ok less_than
    → bytes_below (marshal_time s n) (marshal_time s' n') ≡ true
unfolding marshal_time compare_values
marshal_time-below valid_time s n s' n' r r' h = elim (Bool-cases (s == s')) [
  | inl same ↦
      let e : s ≡ s' = ground arith in
      rw e (
        bytes_below-prepend (put_uint64 (flip_sign s')) _ _
          (ground (arith, marshal_int64-below n n')))
  | inr other ↦
      bytes_below-append (put_uint64 (flip_sign s)) (put_uint64 (flip_sign s')) _ _
        (marshal_int64-below s s' r.0 r'.0 (ground arith))
]

-- Where `Compare` puts a value in range before another one in range, and both are encoded, the
-- encodings compare as bytes in the same way, at a position that both have.
pub monotonic_marshal-below :
    (valid_time : ℕ → ℕ → Bool) (x y : Value) {bx by : Bytes}
    → InRange x
    → InRange y
    → compare_values valid_time x y ≡ ok less_than
    → monotonic_marshal x ≡ ok bx
    → monotonic_marshal y ≡ ok by
    → bytes_below bx by ≡ true
unfolding monotonic_marshal compare_values
monotonic_marshal-below valid_time (int x) (int y) rx ry h ex ey =
    ground (arith, marshal_int64-below x y)
monotonic_marshal-below valid_time (float x) (float y) rx ry h ex ey =
    ground (arith, marshal_float-below x y)
monotonic_marshal-below valid_time (string x) (string y) rx ry h ex ey =
    ground (arith, pack_bytes-below x y)
monotonic_marshal-below valid_time (time s n) (time s' n') rx ry h ex ey =
    ground (arith, marshal_time-below valid_time s n s' n')
monotonic_marshal-below valid_time (bool x) (bool y) rx ry h ex ey = ground arith
monotonic_marshal-below valid_time _ _ rx ry h ex ey = cc

-- An encoded list is the encoding of its head and that of its tail.
marshal_values-cons :
    (v : Value) (vs : Values) {c : Bytes}
    → marshal_values (cons v vs) ≡ ok c
    → (a : Bytes) × (b : Bytes) × (monotonic_marshal v ≡ ok a)
      × (marshal_values vs ≡ ok b)
      × (c ≡ a ++ b)
unfolding monotonic_marshal
marshal_values-cons v vs h =
    let (a, ea, h') = >>=-eq-ok (monotonic_marshal v) _ h in
    let (b, eb, e) = >>=-eq-ok (marshal_values vs) _ h' in (a, b, ea, eb, cc)

abbrev append_values : Values → Values → Values
append_values nil ws = ws
append_values (cons v vs) ws = cons v (append_values vs ws)

module _ (valid_time : ℕ → ℕ → Bool) (x y : Value) (rx : InRange x) (ry : InRange y)
    (lt : compare_values valid_time x y ≡ ok less_than) where
  marshal_values-below :
      (p s t : Values) {bx by : Bytes}
      → marshal_values (append_values p (cons x s)) ≡ ok bx
      → marshal_values (append_values p (cons y t)) ≡ ok by
      → bytes_below bx by ≡ true
  marshal_values-below nil s t ex ey =
      let (a, b, ea, _, e) = marshal_values-cons x s ex in
      let (a', b', ea', _, e') = marshal_values-cons y t ey in
      rw (e, e')
        (bytes_below-append a a' b b' (monotonic_marshal-below valid_time x y rx ry lt ea ea'))
  marshal_values-below (cons v p) s t ex ey =
      let (a, b, ea, eb, e) = marshal_values-cons v (append_values p (cons x s)) ex in
      let (a', b', ea', eb', e') = marshal_values-cons v (append_values p (cons y t)) ey in
      let same : a ≡ a' = cc in
      rw (e, e', same) (bytes_below-prepend a' b b' (marshal_values-below p s t eb eb'))

  -- Two encoded tuples that agree up to components, in range, of which `Compare` puts the first
  -- before the second, compare as bytes in the same way.
  pub monotonic_marshal-below_tuple :
      (p s t : Values) {bx by : Bytes}
      → monotonic_marshal (tuple (append_values p (cons x s))) ≡ ok bx
      → monotonic_marshal (tuple (append_values p (cons y t))) ≡ ok by
      → bytes_below bx by ≡ true
  unfolding monotonic_marshal
  monotonic_marshal-below_tuple p s t ex ey =
      let (a, ea, e) = >>=-eq-ok (marshal_values (append_values p (cons x s))) _ ex in
      let (b, eb, e') = >>=-eq-ok (marshal_values (append_values p (cons y t))) _ ey in
      ground (
        arith,
        bytes_below-append a b (12 ∷ []) (12 ∷ []),
        marshal_values-below p s t {bx = a} {by = b} ea eb,
      )

  -- Where `Compare` puts a value in range before another one in range, and both are encoded by
  -- `ReversedMonotonicMarshal`, the second encoding is below the first.
  pub reversed_monotonic_marshal-below :
      {bx by : Bytes}
      → reversed_monotonic_marshal x ≡ ok bx
      → reversed_monotonic_marshal y ≡ ok by
      → bytes_below by bx ≡ true
  unfolding reversed_monotonic_marshal
  reversed_monotonic_marshal-below ex ey =
      let (a, ea, e) = >>=-eq-ok (monotonic_marshal x) _ ex in
      let (b, eb, e') = >>=-eq-ok (monotonic_marshal y) _ ey in
      let comparable = compared valid_time x y lt in
      let ha = scalar-IsBytes x rx comparable.0 ea in
      let hb = scalar-IsBytes y ry comparable.1 eb in
      ground (
        arith,
        bytes_below-append (map (λ c. 255 - c) b) (map (λ c. 255 - c) a) (255 ∷ []) (255 ∷ []),
        bytes_below-complement a b ha hb,
        monotonic_marshal-below valid_time x y {bx = a} {by = b} rx ry lt ea eb,
      )
