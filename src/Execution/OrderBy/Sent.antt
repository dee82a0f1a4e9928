-- ===== src/Execution/OrderBy/Sent.antt =====
-- What `Trigger` of order_by.go sends, for what the store holds.
use octosql.Base.{
  ℕ, zero, suc, ◌+◌, ◌-◌, ◌<◌, true, false, List, [], ◌∷◌, ◌++◌, Bytes, some, ok, ◌≡◌, refl,
  if◌then◌else◌, bytes_equal, bytes_equal_iff, arith, Bool-cases, inl, inr,
}
use octosql.Base.Int.{sign_bit, int_positive}
use octosql.Base.ByteOrder.{bytes_less_irrefl}
use octosql.Value.{int}
use octosql.Execution.Records.{Record}
use octosql.Execution.OrderBy.{
  OrderStorage, OrderLibraries, OrderExpression, order_key, copies, send_each,
}
use octosql.Execution.OrderBy.Entries.{OrderLaws, yields, Ascends, AllAbove, is_entered}
use octosql.Execution.OrderBy.Counted.{one, net, has_key, AllKeyed}

-- Each record of the entries, so many times.
abbrev pub sent : (Bytes → ℕ) → List (Bytes × Record) → List Record
sent times [] = []
sent times ((k, r) ∷ es) = copies (times k) r ++ sent times es

-- The count as the loop of `Trigger` reads it.
positive_part :
    (a u : ℕ) → a + u < sign_bit → (if int_positive (net a u) then net a u else 0) ≡ a - u
positive_part a u h = ground arith

module _ (lib : OrderLibraries) (expressions : List OrderExpression) (o : OrderStorage)
    (laws : OrderLaws o) (s : o.OrderState) (a u : Bytes → ℕ) where
  abbrev pub IsCounted : Bytes → Type 0
  IsCounted k = (laws.counts s k ≡ some (int (net (a k) (u k)))) × (a k + u k < sign_bit)

  abbrev pub AllCounted : List (Bytes × Record) → Type 0
  AllCounted [] = Unit
  AllCounted ((k, r) ∷ es) = IsCounted k × AllCounted es

  pub AllCounted-of_entered :
      (es : List (Bytes × Record))
      → ((k : Bytes) → is_entered k es ≡ true → IsCounted k)
      → AllCounted es
  AllCounted-of_entered [] h = tt
  AllCounted-of_entered ((k, r) ∷ es) h = (
    h k (rw ((bytes_equal_iff k k).1 refl) refl),
    AllCounted-of_entered es (λ j e. h j (ground arith)),
  )

  pub send_each-sent :
      (es : List (Bytes × Record))
      → AllCounted es
      → send_each lib expressions o s (yields es) ≡ ok (sent (λ k. a k - u k) es)
  unfolding send_each
  send_each-sent [] h = refl
  send_each-sent ((k, r) ∷ es) ((c, b), h) =
      rw (laws.count_get_lem s k, c, send_each-sent es h, positive_part (a k) (u k) b) refl

module _ (lib : OrderLibraries) (expressions : List OrderExpression) where
  -- How many of some records have a key.
  abbrev pub occurrences : Bytes → List Record → ℕ
  occurrences k [] = 0
  occurrences k (r ∷ rs) = one (has_key lib expressions k r) + occurrences k rs

  occurrences-copies :
      (k j : Bytes) (n : ℕ) (r : Record) (rest : List Record)
      → order_key lib expressions r ≡ ok j
      → occurrences k (copies n r ++ rest) ≡ (if bytes_equal j k then n else 0) + occurrences k rest
  occurrences-copies k j zero r rest e = ground arith
  occurrences-copies k j (suc n) r rest e = rw (e, occurrences-copies k j n r rest e) (ground arith)

  is_entered_above :
      (k : Bytes) (es : List (Bytes × Record)) → AllAbove k es → is_entered k es ≡ false
  is_entered_above k [] h = refl
  is_entered_above k ((j, r) ∷ es) (l, h) =
      ground (arith, is_entered_above k es h, bytes_equal_iff j k, bytes_less_irrefl k)

  pub occurrences-sent :
      (k : Bytes) (times : Bytes → ℕ) (es : List (Bytes × Record))
      → AllKeyed lib expressions es
      → Ascends es
      → occurrences k (sent times es) ≡ (if is_entered k es then times k else 0)
  occurrences-sent k times [] h as' = refl
  occurrences-sent k times ((j, r) ∷ es) (e, h) (above, as') =
      rw (occurrences-copies k j (times j) r (sent times es) e, occurrences-sent k times es h as')
        (elim (Bool-cases (bytes_equal j k)) [
          | inl same ↦
              let equal : j ≡ k = (bytes_equal_iff j k).0 same in
              rw (same, ← equal, is_entered_above j es above) (omega arith)
          | inr other ↦ rw other (omega arith)
        ])
