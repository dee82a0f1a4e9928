-- ===== src/SortedKeys/Fuel.antt =====
-- The fuel of the decoder suffices: no input makes the model give up where the program would go on.
use octosql.Base.{
  ℕ, zero, suc, ◌+◌, ◌*◌, ◌<◌, ◌≤◌, ◌≢◌, ap, ◌||◌, inl, inr, Bool, true, false, [], ◌∷◌, arith,
  Bytes, length, drop, take, Outcome, ok, err, panic, ◌>>=◌, ltb, if◌then◌else◌, ◌==◌, Bool-cases,
  out_of_fuel, Error, bad_size, bad_byte, unknown_identifier,
}
use octosql.SortedKeys.Words.{uint64}
use octosql.Value.{
  Value, Values, Fields, int, float, bool, string, duration, cons, nil, tuple, object,
}
use octosql.SortedKeys.Decode.{
  unmarshal_scalar, get_marshal_length, get_constant_marshal_length, get_string_marshal_length,
  find_delimiter, unmarshal_tuple, unmarshal_elements, tuple_to_object, pair_up,
  monotonic_unmarshal, unmarshal_int64, unmarshal_float, unmarshal_null, unmarshal_phantom,
  unmarshal_bool, unmarshal_string, unmarshal_time, make_time,
}

-- The run kept within its fuel, and `P` holds of its value if it has one.
data Ends {A : Type 0} (P : A → Type 0) : Outcome A → Type 0 where
  returns : {a : A} → P a → Ends P (ok a)
  fails : {e : Error} → e ≢ out_of_fuel → Ends P (err e)
  panics : Ends P panic

module _ {A : Type 0} {P : A → Type 0} where
  Ends-ne : {r : Outcome A} → Ends P r → r ≢ err out_of_fuel
  Ends-ne (returns h) = cc
  Ends-ne (fails h) = λ e. h (cc)
  Ends-ne panics = cc

  Ends-if : (b : Bool) {x y : Outcome A} → Ends P x → Ends P y → Ends P (if b then x else y)
  Ends-if true hx hy = hx
  Ends-if false hx hy = hy

  Ends-bind :
      {B : Type 0} {Q : B → Type 0} {r : Outcome A} {f : A → Outcome B}
      → Ends P r
      → ((a : A) → P a → Ends Q (f a))
      → Ends Q (r >>= f)
  Ends-bind (returns {a} h) k = k a h
  Ends-bind (fails h) k = fails h
  Ends-bind panics k = panics

-- Any end but that of the fuel.
abbrev Finishes : {A : Type 0} → Outcome A → Type 0
Finishes = Ends (λ _. Unit)

then_ok : {A B : Type 0} (g : A → B) {r : Outcome A} → Finishes r → Finishes (r >>= λ a. ok (g a))
then_ok g h = Ends-bind h (λ a _. returns tt)

done : {A : Type 0} (a : A) → Finishes (ok a)
done a = returns tt

finishes : {A : Type 0} (r : Outcome A) → r ≢ err out_of_fuel → Finishes r
finishes (ok a) h = returns tt
finishes (err e) h = fails (λ p. h (ap err p))
finishes panic h = panics

find_delimiter-Ends : (bs : Bytes) (index : ℕ) → Ends (λ n. 0 < n) (find_delimiter bs index)
unfolding find_delimiter
find_delimiter-Ends [] index = fails (cc)
find_delimiter-Ends (b ∷ bs) index =
    Ends-if (b == 11) (returns (omega arith)) (find_delimiter-Ends bs (index + 1))

constant-Ends : (i : ℕ) → Ends (λ n. 0 < n) (get_constant_marshal_length i)
unfolding get_constant_marshal_length
constant-Ends i = Ends-if (i == 1 || i == 2) (returns {a = 1} (omega arith)) (
    Ends-if (i == 7) (returns {a = 18} (omega arith)) (
      Ends-if (i == 3 || i == 4 || i == 8) (returns {a = 9} (omega arith))
        (Ends-if (i == 5) (returns {a = 2} (omega arith)) (fails {e = unknown_identifier} (cc)))))

string-Ends : (bs : Bytes) → Ends (λ n. 0 < n) (get_string_marshal_length bs)
unfolding get_string_marshal_length
string-Ends [] = fails (cc)
string-Ends (i ∷ []) = fails (cc)
string-Ends (i ∷ c ∷ bs) = Ends-if (i == 6) (find_delimiter-Ends (c ∷ bs) 1) (fails (cc))

get_marshal_length-Ends : (bs : Bytes) → Ends (λ n. 0 < n) (get_marshal_length bs)
unfolding get_marshal_length
get_marshal_length-Ends [] = panics
get_marshal_length-Ends (i ∷ bs) =
    Ends-if _ (constant-Ends i) (Ends-if _ (string-Ends (i ∷ bs)) (fails (cc)))

pair_up-Ends : (vs : Values) (fs : Fields) → Finishes (pair_up vs fs)
unfolding pair_up
pair_up-Ends nil fs = done fs
pair_up-Ends (cons k nil) fs = fails (cc)
pair_up-Ends (cons k (cons v vs)) fs = pair_up-Ends vs _

tuple_to_object-Ends : (vs : Values) → Finishes (tuple_to_object vs)
unfolding tuple_to_object
tuple_to_object-Ends nil = fails (cc)
tuple_to_object-Ends (cons v vs) = pair_up-Ends (cons v vs) _

uint64-Finishes : (bs : Bytes) → Finishes (uint64 bs)
unfolding uint64
uint64-Finishes bs = finishes _ (ground arith)

unmarshal_int64-Finishes : (bs : Bytes) → Finishes (unmarshal_int64 bs)
unfolding unmarshal_int64
unmarshal_int64-Finishes bs = Ends-bind (uint64-Finishes (drop 1 bs)) (λ i _. done _)

unmarshal_float-Finishes : (bs : Bytes) → Finishes (unmarshal_float bs)
unfolding unmarshal_float
unmarshal_float-Finishes bs = Ends-bind (uint64-Finishes (drop 1 bs)) (λ i _. done _)

unmarshal_null-Finishes : (bs : Bytes) → Finishes (unmarshal_null bs)
unfolding unmarshal_null
unmarshal_null-Finishes bs = finishes _ (ground arith)

unmarshal_phantom-Finishes : (bs : Bytes) → Finishes (unmarshal_phantom bs)
unfolding unmarshal_phantom
unmarshal_phantom-Finishes bs = finishes _ (ground arith)

unmarshal_bool-Finishes : (bs : Bytes) → Finishes (unmarshal_bool bs)
unfolding unmarshal_bool
unmarshal_bool-Finishes bs = finishes _ (ground arith)

unmarshal_string-Finishes : (bs : Bytes) → Finishes (unmarshal_string bs)
unfolding unmarshal_string
unmarshal_string-Finishes bs =
    Ends-if _ (fails {e = bad_size} (cc)) (Ends-if _ (fails {e = bad_byte} (cc)) (done _))

length-drop-le : (n : ℕ) (bs : Bytes) → length (drop n bs) ≤ length bs
length-drop-le zero bs = omega arith
length-drop-le (suc n) [] = omega arith
length-drop-le (suc n) (b ∷ bs) = omega (arith, length-drop-le n bs)

module _ (valid_time : ℕ → ℕ → Bool) where
  make_time-Finishes : (t : ℕ × ℕ) → Finishes (make_time valid_time t)
  unfolding make_time
  make_time-Finishes (s, n) = Ends-if _ (done _) panics

  unmarshal_time-Finishes : (bs : Bytes) → Finishes (unmarshal_time valid_time bs)
  unfolding unmarshal_time
  unmarshal_time-Finishes bs = Ends-if _ panics (
      Ends-bind (unmarshal_int64-Finishes (take 9 bs)) λ seconds _. Ends-if _ panics (
        Ends-bind (unmarshal_int64-Finishes (take 9 (drop 9 bs)))
          λ nanoseconds _. make_time-Finishes _))

  unmarshal_scalar-Finishes : (bs : Bytes) → Finishes (unmarshal_scalar valid_time bs)
  unfolding unmarshal_scalar
  unmarshal_scalar-Finishes [] = fails (cc)
  unmarshal_scalar-Finishes (i ∷ bs) =
      let b = i ∷ bs in
      Ends-if (i == 1) (unmarshal_null-Finishes b) (
        Ends-if (i == 2) (unmarshal_phantom-Finishes b) (
          Ends-if (i == 3) (then_ok int (unmarshal_int64-Finishes b)) (
            Ends-if (i == 4) (then_ok float (unmarshal_float-Finishes b)) (
              Ends-if (i == 5) (then_ok bool (unmarshal_bool-Finishes b)) (
                Ends-if (i == 6) (then_ok string (unmarshal_string-Finishes b)) (
                  Ends-if (i == 7) (unmarshal_time-Finishes b)
                    (Ends-if (i == 8) (then_ok duration (unmarshal_int64-Finishes b)) panics)))))))

  -- A tuple is read with a number of bytes that is not zero.
  abbrev Reads : Outcome (Values × ℕ) → Type 0
  Reads = Ends (λ r. 0 < r.1)

  length-drop-lt : (n : ℕ) (i : ℕ) (bs : Bytes) → 0 < n → length (drop n (i ∷ bs)) ≤ length bs
  length-drop-lt zero i bs h = absurd (omega arith)
  length-drop-lt (suc n) i bs h = length-drop-le n bs

  -- An element before the rest of the tuple.
  Reads-then :
      (v : Value) (r : Outcome (Values × ℕ))
      → Reads r
      → Reads (r >>= λ (more, m). ok (cons v more, m))
  Reads-then v r h = Ends-bind h (λ (more, m) pos. returns pos)

  mutual
    unfolding unmarshal_tuple

    tuple-Ends :
        (f : ℕ) (b : Bytes) → 2 * length b ≤ f → 0 < f → Reads (unmarshal_tuple valid_time f b)
    tuple-Ends zero b h pos = absurd (omega arith)
    tuple-Ends (suc f) [] h pos = fails (cc)
    tuple-Ends (suc f) (i ∷ bs) h pos = elim (Bool-cases (ltb (length (i ∷ bs)) 3)) [
      | inl short ↦ rw (short, unmarshal_tuple) (fails (cc))
      | inr long ↦ rw (long, unmarshal_tuple) (elements-Ends f bs 1 (omega arith) (omega arith))
    ]

    elements-Ends :
        (f : ℕ) (b : Bytes) (index : ℕ)
        → 2 * length b < f
        → 0 < index
        → Reads (unmarshal_elements valid_time f b index)
    elements-Ends zero b index h pos = absurd (omega arith)
    elements-Ends (suc f) [] index h pos = fails (cc)
    elements-Ends (suc f) (i ∷ bs) index h pos = Ends-if (i == 12) (returns (omega arith)) (
        Ends-if (i == 9)
          (Ends-bind (tuple-Ends f (i ∷ bs) (omega arith) (omega arith)) λ (vs, n) some_read.
            Reads-then (tuple vs) _ (
              elements-Ends f (drop n (i ∷ bs)) (index + n)
                (omega (arith, length-drop-lt n i bs some_read)) (omega arith)))
          (Ends-if (i == 10)
            (Ends-bind (tuple-Ends f bs (omega arith) (omega arith)) λ (vs, n) some_read.
              Ends-bind (tuple_to_object-Ends vs) λ fs _. Reads-then (object fs) _ (
                elements-Ends f (drop n bs) (index + (n + 1)) (omega (arith, length-drop-le n bs))
                  (omega arith)))
            (Ends-bind (get_marshal_length-Ends (i ∷ bs)) λ n some_read.
              Ends-if (ltb (length (i ∷ bs)) n) panics (
                Ends-bind (unmarshal_scalar-Finishes (take n (i ∷ bs))) λ v _. Reads-then v _ (
                  elements-Ends f (drop n (i ∷ bs)) (index + n)
                    (omega (arith, length-drop-lt n i bs some_read)) (omega arith))))))

  monotonic_unmarshal-Finishes : (b : Bytes) → Finishes (monotonic_unmarshal valid_time b)
  unfolding monotonic_unmarshal
  monotonic_unmarshal-Finishes [] = fails (cc)
  monotonic_unmarshal-Finishes (i ∷ bs) =
      Ends-if (i == 9)
        (Ends-bind (tuple-Ends (2 * length (i ∷ bs) + 1) (i ∷ bs) (omega arith) (omega arith))
          λ r _. done _)
        (Ends-if (i == 10)
          (Ends-bind (tuple-Ends (2 * length bs + 1) bs (omega arith) (omega arith))
            λ (vs, n) _. Ends-bind (tuple_to_object-Ends vs) λ fs _. done _)
          (unmarshal_scalar-Finishes (i ∷ bs)))

  -- Decoding ends on every input, well formed or not: the decoder's fuel is never used up.
  pub monotonic_unmarshal-ne-out_of_fuel :
      (b : Bytes) → monotonic_unmarshal valid_time b ≢ err out_of_fuel
  monotonic_unmarshal-ne-out_of_fuel b = Ends-ne (monotonic_unmarshal-Finishes b)
