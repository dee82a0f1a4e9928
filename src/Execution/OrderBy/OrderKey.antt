-- ===== src/Execution/OrderBy/OrderKey.antt =====
-- The key of order_by.go orders the records as the expressions of ORDER BY do.
use octosql.Base.{
  ℕ, Bool, List, [], ◌∷◌, ◌++◌, Bytes, ◌≡◌, true, false, ok, >>=-eq-ok, ◌⊎◌, inl, inr, Outcome,
  ok-injective, sym, ◌∙◌,
}
use octosql.Base.ByteOrder.{bytes_below, bytes_below-append, bytes_below-prepend}
use octosql.SortedKeys.Order.{monotonic_marshal-below, reversed_monotonic_marshal-below}
use octosql.Value.{Value, Fields, InRange, compare_values, less_than}
use octosql.Execution.OrderBy.{
  OrderDirection, ascending, descending, OrderExpression, OrderLibraries, separator, marshal_by,
  order_prefix, as_variables, order_key,
}
use octosql.Execution.Records.{Record, with_undo}

-- A value comes before another one in a direction, whichever times protobuf accepts.
abbrev pub Goes : OrderDirection → Value → Value → Type 0
Goes ascending v w = (valid_time : ℕ → ℕ → Bool) × (compare_values valid_time v w ≡ ok less_than)
Goes descending v w = (valid_time : ℕ → ℕ → Bool) × (compare_values valid_time w v ≡ ok less_than)

-- By the first expression with different values, which are in range, the first variables come before.
abbrev pub ComesBefore : List OrderExpression → Fields → Fields → Type 0
ComesBefore [] x y = ⊥
ComesBefore ((e, d) ∷ es) x y =
    (v : Value) × (w : Value) × (e x ≡ ok v)
    × (e y ≡ ok w)
    × ((InRange v × InRange w × Goes d v w) ⊎ ((v ≡ w) × ComesBefore es x y))

marshal_by-below :
    (d : OrderDirection) (v w : Value) {a b : Bytes}
    → InRange v
    → InRange w
    → Goes d v w
    → marshal_by d v ≡ ok a
    → marshal_by d w ≡ ok b
    → bytes_below a b ≡ true
marshal_by-below ascending v w rv rw' (vt, g) ea eb = monotonic_marshal-below vt v w rv rw' g ea eb
marshal_by-below descending v w rv rw' (vt, g) ea eb =
    reversed_monotonic_marshal-below vt w v rw' rv g eb ea

-- The parts of an encoded prefix.
order_prefix-cons :
    (e : Fields → Outcome Value) (d : OrderDirection) (es : List OrderExpression) (x : Fields)
    {p : Bytes}
    → order_prefix ((e, d) ∷ es) x ≡ ok p
    → (v : Value) × (a : Bytes) × (q : Bytes) × (e x ≡ ok v)
      × (marshal_by d v ≡ ok a)
      × (order_prefix es x ≡ ok q)
      × (p ≡ a ++ (separator ∷ q))
unfolding order_prefix
order_prefix-cons e d es x h =
    let (v, ev, h1) = >>=-eq-ok (e x) _ h in
    let (a, ea, h2) = >>=-eq-ok (marshal_by d v) _ h1 in
    let (q, eq, h3) = >>=-eq-ok (order_prefix es x) _ h2 in
    (v, a, q, ev, ea, eq, sym (ok-injective h3))

same_value : {A : Type 0} {o : Outcome A} {v w : A} → o ≡ ok v → o ≡ ok w → v ≡ w
same_value e h = ok-injective (sym e ∙ h)

order_prefix-below :
    (es : List OrderExpression) (x y : Fields) {p q : Bytes}
    → ComesBefore es x y
    → order_prefix es x ≡ ok p
    → order_prefix es y ≡ ok q
    → bytes_below p q ≡ true
order_prefix-below [] x y c ep eq = absurd c
order_prefix-below ((e, d) ∷ es) x y (v, w, ev, ew, inl (rv, rw', g)) ep eq =
    let (v', a, p', ev', ea, ep', e1) = order_prefix-cons e d es x ep in
    let (w', b, q', ew', eb, eq', e2) = order_prefix-cons e d es y eq in
    rw (e1, e2)
      (bytes_below-append a b _ _ (
        marshal_by-below d v w {a = a} {b = b} rv rw' g (rw (same_value ev ev') ea)
          (rw (same_value ew ew') eb)))
order_prefix-below ((e, d) ∷ es) x y (v, w, ev, ew, inr (same, c)) ep eq =
    let (v', a, p', ev', ea, ep', e1) = order_prefix-cons e d es x ep in
    let (w', b, q', ew', eb, eq', e2) = order_prefix-cons e d es y eq in
    let equal : v' ≡ w' = sym (same_value ev ev') ∙ (same ∙ same_value ew ew') in
    let ab : a ≡ b = same_value ea (rw equal eb) in
    rw (e1, e2, ab)
      (bytes_below-prepend b (separator ∷ p') (separator ∷ q')
        (order_prefix-below es x y c ep' eq'))

module _ (lib : OrderLibraries) (expressions : List OrderExpression) where
  -- A record comes before another one by ORDER BY.
  abbrev pub RecordBefore : Record → Record → Type 0
  RecordBefore r r' =
      (x : Fields) × (y : Fields) × (as_variables lib expressions r ≡ ok x)
      × (as_variables lib expressions r' ≡ ok y)
      × ComesBefore expressions x y

  order_key_parts :
      (r : Record) (x : Fields) {k : Bytes}
      → as_variables lib expressions r ≡ ok x
      → order_key lib expressions r ≡ ok k
      → (p : Bytes) × (order_prefix expressions x ≡ ok p)
        × (k ≡ separator ∷ (p ++ (lib.record_string (with_undo false r) ++ separator ∷ [])))
  unfolding order_key
  order_key_parts r x ex h =
      let (x', ex', h1) = >>=-eq-ok (as_variables lib expressions r) _ h in
      let (p, ep, h2) = >>=-eq-ok (order_prefix expressions x') _ h1 in
      (p, rw (same_value ex ex') ep, sym (ok-injective h2))

  -- Where a record comes before another one, and both have a key, its key is below that of the other.
  pub order_key-below :
      (r r' : Record) {k k' : Bytes}
      → RecordBefore r r'
      → order_key lib expressions r ≡ ok k
      → order_key lib expressions r' ≡ ok k'
      → bytes_below k k' ≡ true
  order_key-below r r' (x, y, ex, ey, c) ek ek' =
      let (p, ep, e) = order_key_parts r x ex ek in
      let (q, eq, e') = order_key_parts r' y ey ek' in
      rw (e, e') (bytes_below-append p q _ _ (order_prefix-below expressions x y c ep eq))
