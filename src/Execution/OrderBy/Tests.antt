-- ===== src/Execution/OrderBy/Tests.antt =====
-- An application of the theorem on ORDER BY, over a store in memory: descending by the field `x`.
use octosql.Base.{
  ℕ, ◌-◌, Bool, true, false, List, [], ◌∷◌, Bytes, Option, none, some, Outcome, ok, ◌≡◌, refl,
  bytes_equal, if◌then◌else◌, arith, ◌>>=◌,
}
use octosql.Value.{Value, Fields, null, int, cons, nil, no_fields, field}
use octosql.SortedKeys.{monotonic_marshal, reversed_monotonic_marshal, put_uint64}
use octosql.Storage.{found}
use octosql.Physical.Names.{new_variable_name}
use octosql.Execution.Records.{Record, new_record_from_slice, with_undo}
use octosql.Execution.OrderBy.{
  OrderStorage, OrderLibraries, OrderExpression, descending, order_key, trigger_ordered,
  run_ordered,
}
use octosql.Execution.OrderBy.Entries.{OrderLaws, insert_entry, yields}
use octosql.Execution.OrderBy.Counted.{added, undone}
use octosql.Execution.OrderBy.Sent.{occurrences}
use octosql.Execution.OrderBy.Firsts.{AllFirst}
use octosql.Execution.OrderBy.Sorted.{InOrder, trigger_ordered-run_ordered}

abbrev Contents : Type 0
Contents = List (Bytes × Record) × (Bytes → Option Value)

abbrev store : OrderStorage
store = record {
  OrderState = Contents;
  count_get = λ s k. found (s.1 k);
  count_set = λ s k v. ok (s.0, λ j. if bytes_equal k j then some v else s.1 j);
  value_set = λ s k r. ok (insert_entry k r s.0, s.1);
  value_iterate = λ s. yields s.0;
}

abbrev store_laws : OrderLaws store
store_laws = record {
  counts = λ s. s.1;
  entries = λ s. s.0;
  put_count = λ s k v. (s.0, λ j. if bytes_equal k j then some v else s.1 j);
  put_value = λ s k r. (insert_entry k r s.0, s.1);
  count_get_lem = λ s k. refl;
  count_set_lem = λ s k v. refl;
  value_set_lem = λ s k r. refl;
  value_iterate_lem = λ s. refl;
  counts-put_count = λ s k v j. refl;
  counts-put_value = λ s k r j. refl;
  entries-put_count = λ s k v. refl;
  entries-put_value = λ s k r. refl;
}

abbrev libraries : OrderLibraries
libraries = record { to_lower = λ b. b; record_string = λ r. [] }

-- The value of the only variable.
abbrev first_field : Fields → Outcome Value
first_field no_fields = ok null
first_field (field k v fs) = ok v

abbrev by_x : List OrderExpression
by_x = (first_field, descending) ∷ []

abbrev x_is : ℕ → Record
x_is n = new_record_from_slice ((120 ∷ []) ∷ []) (cons (int n) nil)

abbrev empty : Contents
empty = ([], λ k. none)

abbrev arrivals : List Record
arrivals = x_is 1 ∷ x_is 2 ∷ x_is 1 ∷ with_undo true (x_is 1) ∷ []

x_key : (b : Bool) (n : ℕ) → (k : Bytes) × (order_key libraries by_x (with_undo b (x_is n)) ≡ ok k)
unfolding order_key monotonic_marshal reversed_monotonic_marshal new_variable_name
x_key b n = (_, refl)

trigger_ordered-run_ordered_example :
    (s : Contents) × (out : List Record) × (run_ordered libraries by_x store empty arrivals ≡ ok s)
    × (trigger_ordered libraries by_x store s ≡ ok out)
    × InOrder libraries by_x out
    × AllFirst libraries by_x arrivals out
    × ((k : Bytes)
        → occurrences libraries by_x k out
          ≡ added libraries by_x arrivals k - undone libraries by_x arrivals k)
trigger_ordered-run_ordered_example =
    trigger_ordered-run_ordered libraries by_x store store_laws empty arrivals (λ k. refl) refl
      (x_key false 1, (x_key false 2, (x_key false 1, (x_key true 1, tt)))) (omega arith)

abbrev sent_after : List Record → Outcome (List Record)
sent_after rs = run_ordered libraries by_x store empty rs >>= trigger_ordered libraries by_x store

-- The greater number is sent first.
sends_descending : sent_after arrivals ≡ ok (x_is 2 ∷ x_is 1 ∷ [])
unfolding run_ordered trigger_ordered monotonic_marshal reversed_monotonic_marshal put_uint64
    new_variable_name
sends_descending = refl

-- A record whose retraction arrives first is sent as a retraction.
sends_retraction :
    sent_after (with_undo true (x_is 1) ∷ x_is 1 ∷ x_is 1 ∷ []) ≡ ok (with_undo true (x_is 1) ∷ [])
unfolding run_ordered trigger_ordered monotonic_marshal reversed_monotonic_marshal put_uint64
    new_variable_name
sends_retraction = refl
