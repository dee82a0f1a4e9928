-- ===== src/SortedKeys/Induct.antt =====
-- By induction over nested values: every encoding is read as the value that it encodes.
use octosql.Base.{
  ℕ, ◌<◌, ◌≡◌, Bool, ◌++◌, arith, Bytes, IsBytes, length, ok, >>=-eq-ok, ok-injective,
}
use octosql.Value.{
  Value, Values, Fields, zero_value, null, phantom, int, float, bool, string, time, duration, tuple,
  object, nil, cons, no_fields, field,
}
use octosql.SortedKeys.Encode.{
  monotonic_marshal, marshal_values, marshal_fields, Entries, concat_entries, marshal_string,
  marshal_int64, marshal_float, marshal_bool, marshal_time, marshal_duration,
}
use octosql.SortedKeys.Scalars.{
  ReadsScalar-null, ReadsScalar-phantom, ReadsScalar-int, ReadsScalar-float, ReadsScalar-bool,
  ReadsScalar-string, ReadsScalar-time, ReadsScalar-duration,
}
use octosql.SortedKeys.Objects.{flat, sort_entries-sorted}
use mathlib.Core.Path.{subst}
use octosql.SortedKeys.Reading.{
  IsStorable, AllStorable, FieldsStorable, ReadsAs, ReadsAllAs, ReadsAs-scalar, ReadsAllAs-nil,
  ReadsAllAs-cons, ReadsAs-tuple, ReadsAs-object,
}

module _ (valid_time : ℕ → ℕ → Bool) where
  -- No encoding is empty.
  pub monotonic_marshal-nonempty :
      (v : Value) {bs : Bytes} → monotonic_marshal v ≡ ok bs → 0 < length bs
  unfolding monotonic_marshal marshal_int64 marshal_float marshal_bool marshal_string marshal_time
      marshal_duration
  monotonic_marshal-nonempty (tuple vs) h =
      let (inner, _, e) = >>=-eq-ok (marshal_values vs) _ h in rw (← ok-injective e) (omega arith)
  monotonic_marshal-nonempty (object fs) h =
      let (es, _, e) = >>=-eq-ok (marshal_fields fs) _ h in rw (← ok-injective e) (omega arith)
  monotonic_marshal-nonempty zero_value h = cc
  monotonic_marshal-nonempty _ h = rw (← ok-injective h) (omega arith)

  ReadsAs-string : (k : Bytes) → IsBytes k → ReadsAs valid_time (string k) (marshal_string k)
  ReadsAs-string k h = ReadsAs-scalar valid_time (string k) _ (ReadsScalar-string valid_time k h)

  mutual
    unfolding monotonic_marshal

    pub reads :
        (v : Value) {bs : Bytes}
        → IsStorable valid_time v
        → monotonic_marshal v ≡ ok bs
        → ReadsAs valid_time v bs
    reads zero_value s h = absurd s
    reads null s h =
        subst (ReadsAs valid_time null) (ok-injective h)
          (ReadsAs-scalar valid_time _ _ (ReadsScalar-null valid_time))
    reads phantom s h =
        subst (ReadsAs valid_time phantom) (ok-injective h)
          (ReadsAs-scalar valid_time _ _ (ReadsScalar-phantom valid_time))
    reads (int w) s h =
        subst (ReadsAs valid_time (int w)) (ok-injective h)
          (ReadsAs-scalar valid_time _ _ (ReadsScalar-int valid_time w s))
    reads (float w) s h =
        subst (ReadsAs valid_time (float w)) (ok-injective h)
          (ReadsAs-scalar valid_time _ _ (ReadsScalar-float valid_time w s))
    reads (bool b) s h =
        subst (ReadsAs valid_time (bool b)) (ok-injective h)
          (ReadsAs-scalar valid_time _ _ (ReadsScalar-bool valid_time b))
    reads (string k) s h =
        subst (ReadsAs valid_time (string k)) (ok-injective h) (ReadsAs-string k s)
    reads (time sec n) s h =
        subst (ReadsAs valid_time (time sec n)) (ok-injective h)
          (ReadsAs-scalar valid_time _ _ (ReadsScalar-time valid_time sec n s.0 s.1))
    reads (duration d) s h =
        subst (ReadsAs valid_time (duration d)) (ok-injective h)
          (ReadsAs-scalar valid_time _ _ (ReadsScalar-duration valid_time d s))
    reads (tuple vs) s h =
        let (inner, ei, e) = >>=-eq-ok (marshal_values vs) _ h in
        subst (ReadsAs valid_time (tuple vs)) (ok-injective e)
          (ReadsAs-tuple valid_time vs inner (reads_values vs s ei))
    reads (object no_fields) s h = absurd s
    reads (object (field k v fs)) s h =
        let (es, ees, e) = >>=-eq-ok (marshal_fields (field k v fs)) _ h in
        let sorted = sort_entries-sorted (field k v fs) s.0 ees in
        subst (ReadsAs valid_time (object (field k v fs))) (ok-injective e) (
          rw sorted (
            ReadsAs-object valid_time k v fs (concat_entries es) s.0
              (reads_fields (field k v fs) s.1 ees)))

    pub reads_values :
        (vs : Values) {bs : Bytes}
        → AllStorable valid_time vs
        → marshal_values vs ≡ ok bs
        → ReadsAllAs valid_time vs bs
    reads_values nil s h =
        subst (ReadsAllAs valid_time nil) (ok-injective h) (ReadsAllAs-nil valid_time)
    reads_values (cons v vs) s h =
        let (a, ea, h') = >>=-eq-ok (monotonic_marshal v) _ h in
        let (b, eb, e) = >>=-eq-ok (marshal_values vs) _ h' in
        subst (ReadsAllAs valid_time (cons v vs)) (ok-injective e) (
          ReadsAllAs-cons valid_time v vs a b (monotonic_marshal-nonempty v ea) (reads v s.0 ea)
            (reads_values vs s.1 eb))

    pub reads_fields :
        (fs : Fields) {es : Entries}
        → FieldsStorable valid_time fs
        → marshal_fields fs ≡ ok es
        → ReadsAllAs valid_time (flat fs) (concat_entries es)
    reads_fields no_fields s h =
        subst (λ es. ReadsAllAs valid_time nil (concat_entries es)) (ok-injective h)
          (ReadsAllAs-nil valid_time)
    reads_fields (field k v fs) s h =
        let (b, eb, h') = >>=-eq-ok (monotonic_marshal v) _ h in
        let (es, ees, e) = >>=-eq-ok (marshal_fields fs) _ h' in
        subst (λ es. ReadsAllAs valid_time (flat (field k v fs)) (concat_entries es))
          (ok-injective e)
          (ReadsAllAs-cons valid_time (string k) (cons v (flat fs)) (marshal_string k)
            (b ++ concat_entries es) (omega arith) (ReadsAs-string k s.0)
            (ReadsAllAs-cons valid_time v (flat fs) b (concat_entries es)
              (monotonic_marshal-nonempty v eb) (reads v s.1 eb) (reads_fields fs s.2 ees)))
