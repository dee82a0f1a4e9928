-- ===== src/Aggregates/ExtremeLaws.antt =====
-- Theorems about MIN and MAX: the order of the keys in the storage is the order of the values.
use octosql.Base.{
  ℕ, ◌≡◌, ◌≢◌, ap, ◌∙◌, Bool, true, false, List, [], ◌∷◌, Bytes, bytes_less, Outcome, ok,
  if◌then◌else◌, Bool-cases, inl, inr,
}
use octosql.Base.ByteOrder.{bytes_below→less, bytes_less_trans, bytes_less_irrefl}
use octosql.Base.Int.{int_positive}
use octosql.Value.{Value, InRange, compare_values, Comparison, less_than}
use octosql.SortedKeys.{monotonic_marshal}
use octosql.SortedKeys.Order.{monotonic_marshal-below}
use octosql.Storage.{StorageOps, IteratorOps}
use octosql.Aggregates.Counting.{as_int}
use octosql.Aggregates.Extremes.{first_positive, min_get_value, max_get_value}

-- The encoding of one key is before that of another one, in the direction of an iterator.
abbrev before : Bool → Bytes → Bytes → Bool
before false a b = bytes_less a b
before true a b = bytes_less b a

-- A key that the storage can have: a value in range and its encoding.
abbrev pub IsKey : Value → Bytes → Type 0
IsKey v b = InRange v × (monotonic_marshal v ≡ ok b)

-- An entry of a map, with the bytes of its key, and entries in the order of an iterator.
abbrev pub Entry : Type 0
Entry = Value × Value × Bytes

abbrev AllAfter : Bool → Bytes → List Entry → Type 0
AllAfter back a [] = Unit
AllAfter back a ((k, c, b) ∷ es) = (before back a b ≡ true) × AllAfter back a es

abbrev pub IsSorted : Bool → List Entry → Type 0
IsSorted back [] = Unit
IsSorted back ((k, c, b) ∷ es) = IsKey k b × AllAfter back b es × IsSorted back es

-- An entry is among others, and its count is positive.
pub data Counted : Value → List Entry → Type 0 where
  here :
      {k c : Value} {b : Bytes} {es : List Entry}
      → int_positive (as_int c) ≡ true
      → Counted k ((k, c, b) ∷ es)
  there : {k : Value} {e : Entry} {es : List Entry} → Counted k es → Counted k (e ∷ es)

-- What an iterator yields for entries.
abbrev pub yields : List Entry → List (Outcome (Value × Value))
yields [] = []
yields ((k, c, b) ∷ es) = ok (k, c) ∷ yields es

-- Which of two values `Compare` puts first, in the direction of an iterator.
abbrev precedes : (ℕ → ℕ → Bool) → Bool → Value → Value → Outcome Comparison
precedes valid_time false v w = compare_values valid_time v w
precedes valid_time true v w = compare_values valid_time w v

not_less : (a b : Bytes) → bytes_less a b ≡ true → bytes_less b a ≡ true → ⊥
not_less a b h k = let e = bytes_less_trans a b a h k in let n = bytes_less_irrefl a in cc

later_not_first :
    (valid_time : ℕ → ℕ → Bool) (back : Bool) (v w : Value) (a b : Bytes)
    → IsKey v a
    → IsKey w b
    → before back a b ≡ true
    → precedes valid_time back w v ≢ ok less_than
later_not_first valid_time false v w a b (rv, ev) (rw', ew) h e =
    not_less a b h (bytes_below→less b a (monotonic_marshal-below valid_time w v rw' rv e ew ev))
later_not_first valid_time true v w a b (rv, ev) (rw', ew) h e =
    not_less b a h (bytes_below→less a b (monotonic_marshal-below valid_time v w rv rw' e ev ew))

itself_not_first :
    (valid_time : ℕ → ℕ → Bool) (back : Bool) (v : Value) (a : Bytes)
    → IsKey v a
    → precedes valid_time back v v ≢ ok less_than
itself_not_first valid_time false v a (r, e) h =
    not_less a a (bytes_below→less a a (monotonic_marshal-below valid_time v v r r h e e))
      (bytes_below→less a a (monotonic_marshal-below valid_time v v r r h e e))
itself_not_first valid_time true v a (r, e) h =
    not_less a a (bytes_below→less a a (monotonic_marshal-below valid_time v v r r h e e))
      (bytes_below→less a a (monotonic_marshal-below valid_time v v r r h e e))

after_not_first :
    (valid_time : ℕ → ℕ → Bool) (back : Bool) (v k : Value) (a : Bytes) (es : List Entry)
    → IsKey v a
    → AllAfter back a es
    → IsSorted back es
    → Counted k es
    → precedes valid_time back k v ≢ ok less_than
after_not_first valid_time back v k a [] iv _ _ m = elim m [ ]
after_not_first valid_time back v _ a ((k, c, b) ∷ es) iv (h, hs) (ik, _, s) (here p) =
    later_not_first valid_time back v k a b iv ik h
after_not_first valid_time back v k a (e ∷ es) iv (h, hs) (_, _, s) (there m) =
    after_not_first valid_time back v k a es iv hs s m

head_first :
    (valid_time : ℕ → ℕ → Bool) (back : Bool) (v k c : Value) (b : Bytes) (es : List Entry)
    → IsSorted back ((v, c, b) ∷ es)
    → Counted k ((v, c, b) ∷ es)
    → precedes valid_time back k v ≢ ok less_than
head_first valid_time back v _ c b es (iv, _, _) (here p) = itself_not_first valid_time back v b iv
head_first valid_time back v k c b es (iv, hs, s) (there m) =
    after_not_first valid_time back v k b es iv hs s m

Counted-later :
    (v k c : Value) (b : Bytes) (es : List Entry)
    → int_positive (as_int c) ≡ false
    → Counted k ((v, c, b) ∷ es)
    → Counted k es
Counted-later v _ c b es n (here p) = cc
Counted-later v k c b es n (there m) = m

choice : Value → Value → List Entry → Bool → Outcome Value
choice v c es test = if test then ok v else first_positive (yields es)

first_positive_lem :
    (valid_time : ℕ → ℕ → Bool) (back : Bool) (es : List Entry) (k : Value)
    → IsSorted back es
    → Counted k es
    → (v : Value) × (first_positive (yields es) ≡ ok v)
      × Counted v es
      × (precedes valid_time back k v ≢ ok less_than)
unfolding first_positive choice
first_positive_lem valid_time back [] k s m = elim m [ ]
first_positive_lem valid_time back ((v, c, b) ∷ es) k (iv, hs, s) m =
    elim (Bool-cases (int_positive (as_int c))) [
      | inl p ↦
          (v, ap (choice v c es) p, here p, head_first valid_time back v k c b es (iv, hs, s) m)
      | inr n ↦
          let (w, e, i, q) =
            first_positive_lem valid_time back es k s (Counted-later v k c b es n m) in
          (w, ap (choice v c es) n ∙ e, there i, q)
    ]

module _ (valid_time : ℕ → ℕ → Bool) (o : StorageOps) (it : IteratorOps o) where
  -- MIN over a map whose iterator yields its entries in the order of the encoded keys: where some value
  -- has a positive count, MIN answers a value with a positive count, and `Compare` does not put the first
  -- one before it.
  pub min_get_value-least :
      (m : o.Map) (es : List Entry) (k : Value)
      → it.map_iterate m false ≡ yields es
      → IsSorted false es
      → Counted k es
      → (v : Value) × (min_get_value o it m ≡ ok v)
        × Counted v es
        × (compare_values valid_time k v ≢ ok less_than)
  unfolding min_get_value
  min_get_value-least m es k e s h = rw e (first_positive_lem valid_time false es k s h)

  -- MAX over a map whose iterator yields its entries backwards in the order of the encoded keys: where
  -- some value has a positive count, MAX answers a value with a positive count, and `Compare` does not
  -- put it before the first one.
  pub max_get_value-greatest :
      (m : o.Map) (es : List Entry) (k : Value)
      → it.map_iterate m true ≡ yields es
      → IsSorted true es
      → Counted k es
      → (v : Value) × (max_get_value o it m ≡ ok v)
        × Counted v es
        × (compare_values valid_time v k ≢ ok less_than)
  unfolding max_get_value
  max_get_value-greatest m es k e s h = rw e (first_positive_lem valid_time true es k s h)
