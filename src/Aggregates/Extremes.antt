-- ===== src/Aggregates/Extremes.antt =====
-- execution/aggregates/min.go and max.go: a map counts the values, and an iterator over it, forwards or
-- backwards, finds the first value whose count is positive.
use octosql.Base.{
  true, false, List, [], ◌∷◌, Outcome, ok, err, panic, ◌>>=◌, end_of_iterator, ◌==◌, if◌then◌else◌,
}
use octosql.Base.Int.{int_add, int_sub, int_positive}
use octosql.Value.{Value, int}
use octosql.Storage.{StorageOps, IteratorOps, or_zero}
use octosql.Aggregates.Counting.{Aggregate, as_int}

-- The loop of `GetValue`.
unfoldable pub first_positive : List (Outcome (Value × Value)) → Outcome Value
first_positive [] = err end_of_iterator
first_positive (ok (key, count) ∷ rest) =
    if int_positive (as_int count) then ok key else first_positive rest
first_positive (err e ∷ rest) = err e
first_positive (panic ∷ rest) = panic

module _ (o : StorageOps) (it : IteratorOps o) where
  unfoldable pub extreme_add_value : o.Map → Value → Outcome o.Map
  extreme_add_value m value = do
    current ← or_zero (o.map_get m value)
    o.map_set m value (int (int_add (as_int current) 1))

  unfoldable pub extreme_retract_value : o.Map → Value → Outcome o.Map
  extreme_retract_value m value = do
    current ← or_zero (o.map_get m value)
    let count = int_sub (as_int current) 1
    if count == 0 then o.map_delete m value else o.map_set m value (int count)

  unfoldable pub min_get_value : o.Map → Outcome Value
  unfolding first_positive
  min_get_value m = first_positive (it.map_iterate m false)

  unfoldable pub max_get_value : o.Map → Outcome Value
  unfolding first_positive
  max_get_value m = first_positive (it.map_iterate m true)

  abbrev pub min : Aggregate
  min = record {
    State = o.Map;
    add_value = extreme_add_value;
    retract_value = extreme_retract_value;
    get_value = λ m. min_get_value m >>= λ v. ok (v, m);
  }

  abbrev pub max : Aggregate
  max = record {
    State = o.Map;
    add_value = extreme_add_value;
    retract_value = extreme_retract_value;
    get_value = λ m. max_get_value m >>= λ v. ok (v, m);
  }
