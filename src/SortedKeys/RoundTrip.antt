-- ===== src/SortedKeys/RoundTrip.antt =====
-- `MonotonicUnmarshal` after `MonotonicMarshal`, with tuples and objects nested at will.
use octosql.Base.{
  ℕ, suc, ◌+◌, ◌*◌, ◌<◌, ◌≡◌, ◌≢◌, refl, ap, Bool, false, [], ◌∷◌, ◌++◌, arith, Bytes, length,
  length-append, ok, >>=-eq-ok, ok-injective, ◌==◌, sym, ◌∙◌,
}
use octosql.Value.{
  Value, Values, Fields, zero_value, null, phantom, int, float, bool, string, time, duration, tuple,
  object, nil, cons, no_fields, field,
}
use octosql.SortedKeys.Encode.{
  monotonic_marshal, marshal_values, marshal_fields, Entries, sort_entries, concat_entries,
}
use octosql.SortedKeys.Decode.{unmarshal_scalar, unmarshal_elements, monotonic_unmarshal}
use octosql.SortedKeys.Scalars.{
  ReadsScalar, ReadsScalar-null, ReadsScalar-phantom, ReadsScalar-int, ReadsScalar-float,
  ReadsScalar-bool, ReadsScalar-string, ReadsScalar-time, ReadsScalar-duration,
}
use octosql.SortedKeys.Objects.{flat, sort_entries-sorted, tuple_to_object-flat}
use octosql.SortedKeys.Reading.{IsStorable, AllStorable, FieldsStorable, unmarshal_tuple-append}
use octosql.SortedKeys.Induct.{monotonic_marshal-nonempty, reads, reads_values, reads_fields}

not_nine : (i : ℕ) → i < 9 → (i == 9) ≡ false
not_nine i h = ground arith

not_ten : (i : ℕ) → i < 9 → (i == 10) ≡ false
not_ten i h = ground arith

module _ (valid_time : ℕ → ℕ → Bool) where
  mutual
    unfolding monotonic_marshal

    pub encodes :
        (v : Value) → IsStorable valid_time v → (bs : Bytes) × (monotonic_marshal v ≡ ok bs)
    encodes zero_value s = absurd s
    encodes null s = (_, refl)
    encodes phantom s = (_, refl)
    encodes (int w) s = (_, refl)
    encodes (float w) s = (_, refl)
    encodes (bool b) s = (_, refl)
    encodes (string k) s = (_, refl)
    encodes (time sec n) s = (_, refl)
    encodes (duration d) s = (_, refl)
    encodes (tuple vs) s = let (bs, e) = encodes_values vs s in (9 ∷ (bs ++ 12 ∷ []), rw e)
    encodes (object no_fields) s = absurd s
    encodes (object (field k v fs)) s =
        let (es, e) = encodes_fields (field k v fs) s.1 in
        (10 ∷ 9 ∷ (concat_entries (sort_entries es) ++ 12 ∷ []), rw e)

    encodes_values :
        (vs : Values) → AllStorable valid_time vs → (bs : Bytes) × (marshal_values vs ≡ ok bs)
    encodes_values nil s = (_, refl)
    encodes_values (cons v vs) s =
        let (a, ea) = encodes v s.0 in let (b, eb) = encodes_values vs s.1 in (a ++ b, rw (ea, eb))

    encodes_fields :
        (fs : Fields) → FieldsStorable valid_time fs → (es : Entries) × (marshal_fields fs ≡ ok es)
    encodes_fields no_fields s = (_, refl)
    encodes_fields (field k v fs) s =
        let (a, ea) = encodes v s.1 in
        let (es, e) = encodes_fields fs s.2 in ((k, a) ∷ es, rw (ea, e))

  tuple_decodes :
      (vs : Values) {bs : Bytes}
      → AllStorable valid_time vs
      → vs ≢ nil
      → monotonic_marshal (tuple vs) ≡ ok bs
      → monotonic_unmarshal valid_time bs ≡ ok (tuple vs)
  unfolding monotonic_unmarshal monotonic_marshal
  tuple_decodes nil s ne h = absurd (ne refl)
  tuple_decodes (cons v vs) s ne h =
      let (inner, ei, e) = >>=-eq-ok (marshal_values (cons v vs)) _ h in
      let (a, ea, h') = >>=-eq-ok (monotonic_marshal v) _ ei in
      let (b, eb, e') = >>=-eq-ok (marshal_values vs) _ h' in
      let long = monotonic_marshal-nonempty valid_time v ea in
      let total = length-append a b in
      let join : a ++ b ≡ inner = ok-injective e' in
      let read =
        unmarshal_tuple-append valid_time (cons v vs) inner []
          (2 * length (9 ∷ (inner ++ 12 ∷ [])) + 1) (reads_values valid_time (cons v vs) s ei)
          (rw (← join) (omega (arith, total))) (omega (arith, length-append inner (12 ∷ []))) in
      rw (← ok-injective e, read)

  object_decodes :
      (fs : Fields) {bs : Bytes}
      → IsStorable valid_time (object fs)
      → monotonic_marshal (object fs) ≡ ok bs
      → monotonic_unmarshal valid_time bs ≡ ok (object fs)
  unfolding monotonic_unmarshal monotonic_marshal
  object_decodes no_fields s h = absurd s
  object_decodes (field k v fs) s h =
      let (es, ees, e) = >>=-eq-ok (marshal_fields (field k v fs)) _ h in
      let (b, eb, h') = >>=-eq-ok (monotonic_marshal v) _ ees in
      let (es', ees', e') = >>=-eq-ok (marshal_fields fs) _ h' in
      let sorted = sort_entries-sorted (field k v fs) s.0 ees in
      let join : (k, b) ∷ es' ≡ es = ok-injective e' in
      let read =
        unmarshal_tuple-append valid_time (flat (field k v fs)) (concat_entries es) []
          (2 * length (9 ∷ (concat_entries es ++ 12 ∷ [])) + 1)
          (reads_fields valid_time (field k v fs) s.1 ees) (rw (← join) (omega arith))
          (omega (arith, length-append (concat_entries es) (12 ∷ []))) in
      rw (← ok-injective e, sorted, read, tuple_to_object-flat k v fs s.0)

  unmarshal-plain :
      (i : ℕ) (bs : Bytes)
      → i < 9
      → monotonic_unmarshal valid_time (i ∷ bs) ≡ unmarshal_scalar valid_time (i ∷ bs)
  unfolding monotonic_unmarshal
  unmarshal-plain i bs h = rw (not_nine i h, not_ten i h)

  scalar_decodes :
      (v : Value) {bs : Bytes}
      → ReadsScalar valid_time v bs
      → monotonic_unmarshal valid_time bs ≡ ok v
  scalar_decodes v {bs} r =
      ap (monotonic_unmarshal valid_time) r.split
      ∙ (unmarshal-plain r.head r.others r.plain
          ∙ (ap (unmarshal_scalar valid_time) (sym r.split) ∙ r.decoded))

  decodes :
      (v : Value) {bs : Bytes}
      → IsStorable valid_time v
      → v ≢ tuple nil
      → monotonic_marshal v ≡ ok bs
      → monotonic_unmarshal valid_time bs ≡ ok v
  unfolding monotonic_marshal
  decodes zero_value s ne h = absurd s
  decodes null s ne h = rw (← ok-injective h) (scalar_decodes null (ReadsScalar-null valid_time))
  decodes phantom s ne h =
      rw (← ok-injective h) (scalar_decodes phantom (ReadsScalar-phantom valid_time))
  decodes (int w) s ne h =
      rw (← ok-injective h) (scalar_decodes (int w) (ReadsScalar-int valid_time w s))
  decodes (float w) s ne h =
      rw (← ok-injective h) (scalar_decodes (float w) (ReadsScalar-float valid_time w s))
  decodes (bool b) s ne h =
      rw (← ok-injective h) (scalar_decodes (bool b) (ReadsScalar-bool valid_time b))
  decodes (string k) s ne h =
      rw (← ok-injective h) (scalar_decodes (string k) (ReadsScalar-string valid_time k s))
  decodes (time sec n) s ne h =
      rw (← ok-injective h)
        (scalar_decodes (time sec n) (ReadsScalar-time valid_time sec n s.0 s.1))
  decodes (duration d) s ne h =
      rw (← ok-injective h) (scalar_decodes (duration d) (ReadsScalar-duration valid_time d s))
  decodes (tuple vs) s ne h = tuple_decodes vs s (λ e. ne (ap tuple e)) h
  decodes (object fs) s ne h = object_decodes fs s h

  -- Every storable value but the empty tuple is encoded, and its encoding decodes to it.
  pub monotonic_unmarshal-monotonic_marshal :
      (v : Value)
      → IsStorable valid_time v
      → v ≢ tuple nil
      → (bs : Bytes) × (monotonic_marshal v ≡ ok bs) × (monotonic_unmarshal valid_time bs ≡ ok v)
  monotonic_unmarshal-monotonic_marshal v s ne =
      let (bs, e) = encodes v s in (bs, e, decodes v s ne e)

  -- Storable values with the same encoding are equal.
  pub monotonic_marshal-injective :
      (v w : Value)
      → IsStorable valid_time v
      → IsStorable valid_time w
      → monotonic_marshal v ≡ monotonic_marshal w
      → v ≡ w
  unfolding unmarshal_elements
  monotonic_marshal-injective v w sv sw h =
      let (bs, e) = encodes v sv in
      let f = suc (2 * length bs) in
      let a = reads valid_time v sv e (12 ∷ []) f 1 (omega arith) (omega arith) in
      let b = reads valid_time w sw (sym h ∙ e) (12 ∷ []) f 1 (omega arith) (omega arith) in
      cc (a, b)
