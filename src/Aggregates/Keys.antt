-- ===== src/Aggregates/Keys.antt =====
-- execution/aggregates/key.go.
use octosql.Base.{Outcome, ok, err, panic, ◌>>=◌, ◌==◌, if◌then◌else◌}
use octosql.Base.Int.{int_add, int_sub, int_less}
use octosql.Value.{Value, int, zero_value}
use octosql.Storage.{StorageOps, or_zero}
use octosql.Aggregates.Counting.{Aggregate, as_int}

module _ (o : StorageOps) where
  -- The key, and the count of the values that came in.
  abbrev pub KeyState : Type 0
  KeyState = o.Cell × o.Cell

  unfoldable pub key_add_value : KeyState → Value → Outcome KeyState
  key_add_value (key, n) value = do
    current ← or_zero (o.cell_get n)
    let count = int_add (as_int current) 1
    n' ← o.cell_set n (int count)
    key' ← if count == 1 then o.cell_set key value else ok key
    ok (key', n')

  unfoldable pub key_retract_value : KeyState → Value → Outcome KeyState
  key_retract_value (key, n) value = do
    current ← or_zero (o.cell_get n)
    let count = int_sub (as_int current) 1
    if count == 0
        then (do key' ← o.cell_clear key; n' ← o.cell_clear n; ok (key', n'))
        else (do n' ← o.cell_set n (int count); ok (key, n'))

  -- The count is tested before the error of its read, so a failed read counts as zero.
  unfoldable pub key_get_value : KeyState → Outcome Value
  key_get_value (key, n) = elim (o.cell_get n) [
    | ok current ↦ if int_less 0 (as_int current) then o.cell_get key else ok zero_value
    | err e ↦ ok zero_value
    | panic ↦ panic
  ]

  abbrev pub key_aggregate : Aggregate
  key_aggregate = record {
    State = KeyState;
    add_value = key_add_value;
    retract_value = key_retract_value;
    get_value = λ s. key_get_value s >>= λ v. ok (v, s);
  }
