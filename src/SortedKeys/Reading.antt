-- ===== src/SortedKeys/Reading.antt =====
-- How the decoder's loop of sorted_keys.go reads the encoding of one element, and of a list.
use octosql.Base.{
  ℕ, zero, suc, ◌+◌, ◌*◌, ◌<◌, ◌≤◌, ◌≡◌, ap, Bool, true, false, [], ◌∷◌, ◌++◌, append_assoc, arith,
  Bytes, IsBytes, length, length-append, drop, take, take-append, drop-append, Outcome, ok, panic,
  ◌>>=◌, ltb, if◌then◌else◌, ◌==◌, ◌∙◌,
}
use octosql.Value.{
  Value, Values, Fields, InRange, zero_value, null, phantom, int, float, bool, string, time,
  duration, tuple, object, nil, cons, no_fields, field,
}
use octosql.SortedKeys.Decode.{
  unmarshal_scalar, get_marshal_length, unmarshal_tuple, unmarshal_elements,
}
use octosql.SortedKeys.Scalars.{ReadsScalar}
use octosql.SortedKeys.Objects.{IsSorted, flat, tuple_to_object-flat}

module _ (valid_time : ℕ → ℕ → Bool) where
  -- What the encoding can hold: values in range, times that `TimestampProto` accepts, and objects
  -- with a field.
  abbrev mutual
    pub IsStorable : Value → Type 0
    IsStorable zero_value = ⊥
    IsStorable (time s n) = InRange (time s n) × (valid_time s n ≡ true)
    IsStorable (tuple vs) = AllStorable vs
    IsStorable (object no_fields) = ⊥
    IsStorable (object (field k v fs)) = IsSorted (field k v fs) × FieldsStorable (field k v fs)
    IsStorable null = Unit
    IsStorable phantom = Unit
    IsStorable (int w) = InRange (int w)
    IsStorable (float w) = InRange (float w)
    IsStorable (bool b) = Unit
    IsStorable (string s) = IsBytes s
    IsStorable (duration d) = InRange (duration d)

    pub AllStorable : Values → Type 0
    AllStorable nil = Unit
    AllStorable (cons v vs) = IsStorable v × AllStorable vs

    pub FieldsStorable : Fields → Type 0
    FieldsStorable no_fields = Unit
    FieldsStorable (field k v fs) = IsBytes k × IsStorable v × FieldsStorable fs

  -- The decoder's loop, having read `v`, goes on with what is left.
  abbrev pub then_read : Value → Outcome (Values × ℕ) → Outcome (Values × ℕ)
  then_read v r = r >>= λ (more, m). ok (cons v more, m)

  -- The loop reads `bs`, which is not the end of the tuple, as `v`, on fuel of twice its length.
  abbrev pub ReadsAs : Value → Bytes → Type 0
  ReadsAs v bs =
      (rest : Bytes) (f index : ℕ)
      → 2 * length bs ≤ f
      → 0 < length rest
      → unmarshal_elements valid_time (suc f) (bs ++ rest) index
        ≡ then_read v (unmarshal_elements valid_time f rest (index + length bs))

  -- What the loop does with a scalar.
  abbrev read_scalar : ℕ → Bytes → ℕ → Outcome ℕ → Outcome (Values × ℕ)
  read_scalar f bs index measured = do
    n ← measured
    if ltb (length bs) n then panic else do
      v ← unmarshal_scalar valid_time (take n bs)
      then_read v (unmarshal_elements valid_time f (drop n bs) (index + n))

  elements-plain :
      (f i : ℕ) (bs : Bytes) (index : ℕ)
      → i < 9
      → unmarshal_elements valid_time (suc f) (i ∷ bs) index
        ≡ read_scalar f (i ∷ bs) index (get_marshal_length (i ∷ bs))
  unfolding unmarshal_elements
  elements-plain f i bs index h =
      let not_end : (i == 12) ≡ false = ground arith in
      let not_tuple : (i == 9) ≡ false = ground arith in
      let not_object : (i == 10) ≡ false = ground arith in rw (not_end, not_tuple, not_object)

  read_scalar-append :
      (f : ℕ) (v : Value) (bs rest : Bytes) (index : ℕ)
      → unmarshal_scalar valid_time bs ≡ ok v
      → read_scalar f (bs ++ rest) index (ok (length bs))
        ≡ then_read v (unmarshal_elements valid_time f rest (index + length bs))
  read_scalar-append f v bs rest index h =
      let fits : ltb (length (bs ++ rest)) (length bs) ≡ false =
        ground (arith, length-append bs rest) in
      rw (fits, take-append bs rest, drop-append bs rest, h)

  pub ReadsAs-scalar : (v : Value) (bs : Bytes) → ReadsScalar valid_time v bs → ReadsAs v bs
  ReadsAs-scalar v [] r rest f index h more = cc r.split
  ReadsAs-scalar v (i ∷ bs) r rest f index h more =
      let same : i ≡ r.head = cc r.split in
      elements-plain f i (bs ++ rest) index (rw same r.plain)
      ∙ (ap (read_scalar f (i ∷ (bs ++ rest)) index) (r.measured rest)
          ∙ read_scalar-append f v (i ∷ bs) rest index r.decoded)

  -- The loop reads `bs`, up to a delimiter behind it, as the list `vs`.
  abbrev pub ReadsAllAs : Values → Bytes → Type 0
  ReadsAllAs vs bs =
      (rest : Bytes) (f index : ℕ)
      → 2 * length bs < f
      → unmarshal_elements valid_time f (bs ++ 12 ∷ rest) index ≡ ok (vs, index + length bs + 1)

  pub ReadsAllAs-nil : ReadsAllAs nil []
  unfolding unmarshal_elements
  ReadsAllAs-nil rest zero index h = absurd (omega arith)
  ReadsAllAs-nil rest (suc f) index h = ap (λ n. ok (nil, n)) (omega arith)

  pub ReadsAllAs-cons :
      (v : Value) (vs : Values) (a b : Bytes)
      → 0 < length a
      → ReadsAs v a
      → ReadsAllAs vs b
      → ReadsAllAs (cons v vs) (a ++ b)
  ReadsAllAs-cons v vs a b pos ra rb rest zero index h = absurd (omega arith)
  ReadsAllAs-cons v vs a b pos ra rb rest (suc f) index h =
      let size = length-append a b in
      rw (append_assoc a b (12 ∷ rest)) (
        ra (b ++ 12 ∷ rest) f index (omega (arith, size))
          (omega (arith, length-append b (12 ∷ rest)))
        ∙ (ap (then_read v) (rb rest f (index + length a) (omega (arith, size)))
            ∙ ap (λ n. ok (cons v vs, n)) (omega (arith, size))))

  -- A tuple whose elements the loop reads.
  pub unmarshal_tuple-append :
      (vs : Values) (inner rest : Bytes) (f : ℕ)
      → ReadsAllAs vs inner
      → 0 < length inner + length rest
      → 2 * length inner + 1 < f
      → unmarshal_tuple valid_time f (9 ∷ (inner ++ 12 ∷ rest)) ≡ ok (vs, length inner + 2)
  unfolding unmarshal_tuple
  unmarshal_tuple-append vs inner rest zero r long h = absurd (omega arith)
  unmarshal_tuple-append vs inner rest (suc f) r long h =
      let enough : ltb (suc (length (inner ++ 12 ∷ rest))) 3 ≡ false =
        ground (arith, length-append inner (12 ∷ rest)) in
      rw (enough, unmarshal_tuple) (r rest f 1 (omega arith) ∙ ap (λ n. ok (vs, n)) (omega arith))

  drop_nested : (inner rest : Bytes) → drop (length inner + 2) (9 ∷ (inner ++ 12 ∷ rest)) ≡ rest
  drop_nested inner rest =
      let n : length inner + 2 ≡ suc (length (inner ++ 12 ∷ [])) =
        omega (arith, length-append inner (12 ∷ [])) in
      rw (n, ← append_assoc inner (12 ∷ []) rest) (drop-append (inner ++ 12 ∷ []) rest)

  pub ReadsAs-tuple :
      (vs : Values) (inner : Bytes)
      → ReadsAllAs vs inner
      → ReadsAs (tuple vs) (9 ∷ (inner ++ 12 ∷ []))
  unfolding unmarshal_elements
  ReadsAs-tuple vs inner r rest f index h more =
      let size = length-append inner (12 ∷ []) in
      let read = unmarshal_tuple-append vs inner rest f r (omega arith) (omega (arith, size)) in
      let moved : index + (length inner + 2) ≡ index + suc (length (inner ++ 12 ∷ [])) =
        omega (arith, size) in
      rw (append_assoc inner (12 ∷ []) rest, read, drop_nested inner rest, moved)

  pub ReadsAs-object :
      (k : Bytes) (v : Value) (fs : Fields) (inner : Bytes)
      → IsSorted (field k v fs)
      → ReadsAllAs (flat (field k v fs)) inner
      → ReadsAs (object (field k v fs)) (10 ∷ 9 ∷ (inner ++ 12 ∷ []))
  unfolding unmarshal_elements
  ReadsAs-object k v fs inner s r rest f index h more =
      let size = length-append inner (12 ∷ []) in
      let read =
        unmarshal_tuple-append (flat (field k v fs)) inner rest f r (omega arith)
          (omega (arith, size)) in
      let moved : index + (length inner + 2 + 1) ≡ index + suc (suc (length (inner ++ 12 ∷ []))) =
        omega (arith, size) in
      rw (
        append_assoc inner (12 ∷ []) rest,
        read,
        tuple_to_object-flat k v fs s,
        drop_nested inner rest,
        moved,
      )
