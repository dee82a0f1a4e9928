-- ===== src/Execution/OrderBy.antt =====
-- execution/order_by.go: what is kept under one key, the key by which the records are ordered, and what is
-- sent. The prefix made of the key of the group is left out.
pub mod OrderKey
pub mod Entries
pub mod Counted
pub mod Firsts
pub mod Runs
pub mod Sent
pub mod Sorted
mod Tests
use octosql.Base.{
  ℕ, zero, suc, Bool, false, List, [], ◌∷◌, ◌++◌, Bytes, Outcome, ok, err, panic, ◌>>=◌, not_found,
  if◌then◌else◌,
}
use octosql.Base.Int.{word_mod, int_add, int_sub, int_positive}
use octosql.SortedKeys.{monotonic_marshal, reversed_monotonic_marshal}
use octosql.Value.{Value, Values, Fields, int, cons, nil, no_fields}
use octosql.Aggregates.{as_int}
use octosql.Physical.Names.{new_variable_name}
use octosql.Execution.Records.{Record, assign, with_undo}

-- Any direction but "asc" is the other one.
pub data OrderDirection : Type 0 where
  ascending descending : OrderDirection

-- What an expression evaluates to, for the variables of a record.
abbrev pub OrderExpression : Type 0
OrderExpression = (Fields → Outcome Value) × OrderDirection

-- The storage of the records by their order key, and of the count of each order key.
pub record OrderStorage : Type 1 where
  pub OrderState : Type 0
  pub count_get : OrderState → Bytes → Outcome Value
  pub count_set : OrderState → Bytes → Value → Outcome OrderState
  pub value_set : OrderState → Bytes → Record → Outcome OrderState
  -- What the calls of `Next` of an iterator over the records yield.
  pub value_iterate : OrderState → List (Outcome (Bytes × Record))

-- strings.ToLower, and the text of a record.
pub record OrderLibraries : Type 0 where
  pub to_lower : Bytes → Bytes
  pub record_string : Record → Bytes

-- `AsVariables`; a name without a value is a panic.
abbrev pub collect_variables : (Bytes → Bytes) → List Bytes → Values → Fields → Outcome Fields
unfolding new_variable_name
collect_variables to_lower [] vs acc = ok acc
collect_variables to_lower (f ∷ fs) nil acc = panic
collect_variables to_lower (f ∷ fs) (cons v vs) acc =
    collect_variables to_lower fs vs (assign acc (new_variable_name to_lower f) v)

-- The dollar sign.
abbrev pub separator : ℕ
separator = 36

abbrev pub marshal_by : OrderDirection → Value → Outcome Bytes
marshal_by ascending v = monotonic_marshal v
marshal_by descending v = reversed_monotonic_marshal v

-- The loop over the expressions: what is appended to the prefix.
unfoldable pub order_prefix : List OrderExpression → Fields → Outcome Bytes
order_prefix [] variables = ok []
order_prefix ((e, d) ∷ es) variables = do
  v ← e variables
  encoded ← marshal_by d v
  rest ← order_prefix es variables
  ok (encoded ++ separator ∷ rest)

-- The times that the loop of `Trigger` appends a record.
abbrev pub copies : ℕ → Record → List Record
copies zero r = []
copies (suc n) r = r ∷ copies n r

-- The new count of a key, of which a record is added or undone.
abbrev pub next_count : Bool → ℕ → ℕ
next_count undo count = if undo then int_sub count 1 else int_add count 1

module _ (lib : OrderLibraries) (expressions : List OrderExpression) where
  abbrev pub as_variables : Record → Outcome Fields
  as_variables r = collect_variables lib.to_lower r.field_names r.record_data no_fields

  -- The key of a record: it ends in the text of the whole record.
  unfoldable pub order_key : Record → Outcome Bytes
  unfolding order_prefix
  order_key r = do
    variables ← as_variables r
    prefix ← order_prefix expressions variables
    ok (separator ∷ (prefix ++ (lib.record_string (with_undo false r) ++ separator ∷ [])))

  module _ (o : OrderStorage) where
    open o use {OrderState}

    unfoldable pub add_ordered : OrderState → Record → Outcome OrderState
    unfolding order_key
    add_ordered s r = do
      key ← order_key r
      elim (o.count_get s key) [
        | ok count ↦ o.count_set s key (int (next_count r.metadata.undo (as_int count)))
        | err e ↦ elim e [
          | not_found ↦ do
            s' ← o.value_set s key r
            o.count_set s' key (int (next_count r.metadata.undo 0))
          | other ↦ err other
        ]
        | panic ↦ panic
      ]

    -- The loop of `Trigger` over the iterator.
    unfoldable pub send_each : OrderState → List (Outcome (Bytes × Record)) → Outcome (List Record)
    send_each s [] = ok []
    send_each s (entry ∷ entries) = do
      (key, r) ← entry
      count ← o.count_get s key
      rest ← send_each s entries
      ok (copies (if int_positive (as_int count) then as_int count else 0) r ++ rest)

    unfoldable pub trigger_ordered : OrderState → Outcome (List Record)
    unfolding send_each
    trigger_ordered s = send_each s (o.value_iterate s)

    unfoldable pub run_ordered : OrderState → List Record → Outcome OrderState
    unfolding add_ordered
    run_ordered s [] = ok s
    run_ordered s (r ∷ rs) = do s' ← add_ordered s r; run_ordered s' rs
