-- ===== src/Execution/OrderBy/Sorted.antt =====
-- What order_by.go sends: every record as often as it was added and not undone, in the order of ORDER BY.
use octosql.Base.{
  ℕ, zero, suc, ◌+◌, ◌-◌, ◌<◌, true, false, List, [], ◌∷◌, ◌++◌, Bytes, none, ok, ◌≡◌, refl, ◌==◌,
  bytes_less, arith, length, Bool-cases, inl, inr, ◌∙◌,
}
use octosql.Base.Int.{sign_bit}
use octosql.Base.ByteOrder.{bytes_less_irrefl, bytes_less_trans, bytes_below→less}
use octosql.Execution.Records.{Record}
use octosql.Execution.OrderBy.{
  OrderStorage, OrderLibraries, OrderExpression, order_key, copies, trigger_ordered, run_ordered,
}
use octosql.Execution.OrderBy.Entries.{OrderLaws, Ascends, AllAbove, is_entered}
use octosql.Execution.OrderBy.Counted.{added, undone, HaveKeys, AllKeyed, Tallied}
use octosql.Execution.OrderBy.Runs.{run_ordered_lem}
use octosql.Execution.OrderBy.Sent.{
  sent, IsCounted, AllCounted-of_entered, send_each-sent, occurrences, occurrences-sent,
}
use octosql.Execution.OrderBy.Firsts.{
  AllMapped, first_with, AllFirst, AllMapped-of_empty, AllFirst-sent,
}
use octosql.Execution.OrderBy.OrderKey.{RecordBefore, order_key-below}

not_less : (k j : Bytes) → bytes_less k j ≡ true → bytes_less j k ≡ false
not_less k j h = elim (Bool-cases (bytes_less j k)) [
  | inl l ↦ cc (bytes_less_trans k j k h l, bytes_less_irrefl k)
  | inr n ↦ n
]

module _ (lib : OrderLibraries) (expressions : List OrderExpression) where
  abbrev NoneBefore : Record → List Record → Type 0
  NoneBefore r [] = Unit
  NoneBefore r (r' ∷ rs) = (¬ RecordBefore lib expressions r' r) × NoneBefore r rs

  -- No record comes before one that stands in front of it.
  abbrev pub InOrder : List Record → Type 0
  InOrder [] = Unit
  InOrder (r ∷ rs) = NoneBefore r rs × InOrder rs

  -- No record has a key less than a key.
  abbrev AllFrom : Bytes → List Record → Type 0
  AllFrom k [] = Unit
  AllFrom k (r ∷ rs) =
      ((j : Bytes) × (order_key lib expressions r ≡ ok j) × (bytes_less j k ≡ false)) × AllFrom k rs

  NoneBefore-of_AllFrom :
      (r : Record) (k : Bytes) (rs : List Record)
      → order_key lib expressions r ≡ ok k
      → AllFrom k rs
      → NoneBefore r rs
  NoneBefore-of_AllFrom r k [] e h = tt
  NoneBefore-of_AllFrom r k (r' ∷ rs) e ((j, ej, n), h) = (
    (λ b. absurd (cc (bytes_below→less j k (order_key-below lib expressions r' r b ej e), n))),
    NoneBefore-of_AllFrom r k rs e h,
  )

  AllFrom-copies :
      (k j : Bytes) (n : ℕ) (r : Record) (rest : List Record)
      → order_key lib expressions r ≡ ok j
      → bytes_less j k ≡ false
      → AllFrom k rest
      → AllFrom k (copies n r ++ rest)
  AllFrom-copies k j zero r rest e l h = h
  AllFrom-copies k j (suc n) r rest e l h = ((j, e, l), AllFrom-copies k j n r rest e l h)

  AllFrom-sent :
      (k : Bytes) (times : Bytes → ℕ) (es : List (Bytes × Record))
      → AllKeyed lib expressions es
      → AllAbove k es
      → AllFrom k (sent times es)
  AllFrom-sent k times [] h a = tt
  AllFrom-sent k times ((j, r) ∷ es) (e, h) (l, a) =
      AllFrom-copies k j (times j) r (sent times es) e (not_less k j l)
        (AllFrom-sent k times es h a)

  InOrder-copies :
      (k : Bytes) (n : ℕ) (r : Record) (rest : List Record)
      → order_key lib expressions r ≡ ok k
      → AllFrom k rest
      → InOrder rest
      → InOrder (copies n r ++ rest)
  InOrder-copies k zero r rest e h i = i
  InOrder-copies k (suc n) r rest e h i = (
    NoneBefore-of_AllFrom r k (copies n r ++ rest) e
        (AllFrom-copies k k n r rest e (bytes_less_irrefl k) h),
    InOrder-copies k n r rest e h i,
  )

  InOrder-sent :
      (times : Bytes → ℕ) (es : List (Bytes × Record))
      → AllKeyed lib expressions es
      → Ascends es
      → InOrder (sent times es)
  InOrder-sent times [] h a = tt
  InOrder-sent times ((k, r) ∷ es) (e, h) (above, a) =
      InOrder-copies k (times k) r (sent times es) e (AllFrom-sent k times es h above)
        (InOrder-sent times es h a)

  added-add-undone :
      (rs : List Record) (k : Bytes)
      → added lib expressions rs k + undone lib expressions rs k < suc (length rs)
  added-add-undone [] k = omega arith
  added-add-undone (r ∷ rs) k = ground (arith, added-add-undone rs k)

  module _ (o : OrderStorage) (laws : OrderLaws o) where
    -- What the counts say of a key that is entered.
    IsCounted-of_Tallied :
        {s : o.OrderState} (a u : Bytes → ℕ)
        → Tallied lib expressions o laws s a u
        → ((k : Bytes) → a k + u k < sign_bit)
        → (k : Bytes) → is_entered k (laws.entries s) ≡ true
        → IsCounted lib expressions o laws s a u k
    IsCounted-of_Tallied a u t b k h =
        let some_of_it : (a k + u k == 0) ≡ false = ground (arith, t.entered k) in
        (t.counted k ∙ (rw some_of_it refl), b k)

    trigger_ordered_lem :
        (rs : List Record) (s : o.OrderState) (a u : Bytes → ℕ)
        → AllMapped (first_with lib expressions rs) (laws.entries s)
        → Tallied lib expressions o laws s a u
        → ((k : Bytes) → a k + u k < sign_bit)
        → (out : List Record) × (trigger_ordered lib expressions o s ≡ ok out)
          × InOrder out
          × AllFirst lib expressions rs out
          × ((k : Bytes) → occurrences lib expressions k out ≡ a k - u k)
    unfolding trigger_ordered
    trigger_ordered_lem rs s a u firsts t b = (
      sent (λ k. a k - u k) (laws.entries s),
      rw (laws.value_iterate_lem s) (
          send_each-sent lib expressions o laws s a u (laws.entries s) (
            AllCounted-of_entered lib expressions o laws s a u (laws.entries s)
              (IsCounted-of_Tallied a u t b))),
      InOrder-sent (λ k. a k - u k) (laws.entries s) t.keyed t.ascends,
      AllFirst-sent lib expressions rs (λ k. a k - u k) (laws.entries s) t.keyed firsts,
      (λ k.
          rw
            (
              occurrences-sent lib expressions k (λ j. a j - u j) (laws.entries s) t.keyed
                  t.ascends,
              t.entered k,
            )
            (ground arith)),
    )

    -- Over a store that works, from an empty state, after fewer than 2^63 records that each have an order
    -- key, records and retractions in any order: no operation fails; what is sent when the group is
    -- triggered is in the order of ORDER BY, ascending or descending by each expression; each that is
    -- sent is the first that arrived with its order key, a record or a retraction; and of each order key
    -- as many are sent as were added beyond those undone.
    pub trigger_ordered-run_ordered :
        (s : o.OrderState) (rs : List Record)
        → ((k : Bytes) → laws.counts s k ≡ none)
        → laws.entries s ≡ []
        → HaveKeys lib expressions rs
        → length rs < sign_bit
        → (s' : o.OrderState) × (out : List Record) × (run_ordered lib expressions o s rs ≡ ok s')
          × (trigger_ordered lib expressions o s' ≡ ok out)
          × InOrder out
          × AllFirst lib expressions rs out
          × ((k : Bytes)
              → occurrences lib expressions k out
                ≡ added lib expressions rs k - undone lib expressions rs k)
    trigger_ordered-run_ordered s rs counts entries keys small =
        let start : Tallied lib expressions o laws s (λ k. 0) (λ k. 0) = record {
          counted = counts;
          entered = λ k. rw entries refl;
          ascends = rw entries tt;
          keyed = rw entries tt;
        } in
        let (s', run, t, n) =
          run_ordered_lem lib expressions o laws rs s (λ k. 0) (λ k. 0) keys start
            (λ k. omega arith) in
        let firsts : AllMapped (first_with lib expressions rs) (laws.entries s') =
          rw (n, entries) (AllMapped-of_empty lib expressions rs keys) in
        let (out, sends, order, first, number) =
          trigger_ordered_lem rs s' (λ k. added lib expressions rs k + 0)
            (λ k. undone lib expressions rs k + 0) firsts t
            (λ k. omega (arith, added-add-undone rs k)) in
        (s', out, run, sends, order, first, (λ k. number k ∙ omega arith))
