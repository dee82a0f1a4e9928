-- ===== src/Aggregates/Tests.antt =====
-- Applications of the theorems on aggregates, over the storage in memory.
use octosql.Base.{
  true, ℕ, ◌+◌, ◌-◌, ◌%◌, ◌<◌, ◌≡◌, ◌≢◌, refl, List, [], ◌∷◌, none, ok, ◌>>=◌, arith, ltb,
  if◌then◌else◌,
}
use octosql.Base.Int.{word_mod}
use octosql.Value.{Value, int, string, zero_value, compare_values, less_than}
use octosql.SortedKeys.{monotonic_marshal, marshal_int64, put_uint64}
use octosql.Storage.{IteratorOps}
use octosql.Storage.Memory.{memory, memory_laws}
use octosql.Aggregates.{
  Event, added, retracted, run, count, count_get_value, distinct, FloatOps, SumState, sum,
  sum_get_value, key_aggregate, key_get_value, KeyState, min_get_value, max_get_value,
}
use octosql.Aggregates.ExtremeLaws.{
  Entry, Counted, here, there, yields, min_get_value-least, max_get_value-greatest,
}
use octosql.Aggregates.CountLaws.{count_get_value-run, additions, retractions}
use octosql.Aggregates.DistinctLaws.{run-distinct, edges}
use octosql.Aggregates.SumLaws.{
  sum_get_value-run, IntEvent, int_added, int_retracted, events, total_in, total_out,
}
use octosql.Aggregates.KeyLaws.{key_get_value-run}

-- One value too many leaves before it comes in.
abbrev traffic : List Event
traffic = retracted (int 3) ∷ added (int 3) ∷ added (int 3) ∷ []

count_get_value-run_example :
    (c : memory.Cell) × (run (count memory) none traffic ≡ ok c)
    × (count_get_value memory c ≡ ok (int (additions traffic - retractions traffic)))
count_get_value-run_example = count_get_value-run memory memory_laws traffic none (omega arith) refl

abbrev empty_map : memory.Map
empty_map = λ k. none

run-distinct_example :
    (m : memory.Map) × (run (distinct memory (count memory)) (empty_map, none) traffic
      ≡ (run (count memory) none (edges (λ _. 0) traffic) >>= λ s. ok (m, s)))
run-distinct_example =
    run-distinct memory memory_laws (count memory) traffic empty_map none (λ j. refl)

-- An arithmetic of floats that is none: the sums below are of ints.
abbrev no_floats : FloatOps
no_floats = record {
  float_add = λ x y. x;
  float_sub = λ x y. x;
  float_div = λ x y. x;
  float_of_int = λ n. n;
  int_div = λ x y. x;
}

abbrev sums : List IntEvent
sums = int_retracted 5 ∷ int_added (word_mod - 1) ∷ int_added 9 ∷ []

sum_get_value-run_example :
    (s : SumState no_floats memory) × (w : ℕ) × (run
        (sum no_floats memory)
        (none, none)
        (events sums)
      ≡ ok s)
    × (sum_get_value no_floats memory s ≡ ok (int w))
    × (w < word_mod)
    × ((w + total_out sums) % word_mod ≡ total_in sums % word_mod)
sum_get_value-run_example =
    sum_get_value-run no_floats memory memory_laws sums (none, none)
      (omega arith, (omega arith, (omega arith, tt))) refl refl

abbrev keys : List Event
keys = added (string []) ∷ added (string []) ∷ retracted (string []) ∷ []

key_get_value-run_example :
    (s : KeyState memory) × (run (key_aggregate memory) (none, none) keys ≡ ok s)
    × (key_get_value memory s
        ≡ ok (if ltb (retractions keys) (additions keys) then string [] else zero_value))
key_get_value-run_example =
    key_get_value-run memory memory_laws (string []) keys (none, none) (refl, (refl, (refl, tt)))
      (omega arith) refl refl

-- The entries of a map: one more 1 left than came in, 3 is there once and 5 twice.
abbrev counted : List Entry
counted =
    (int 1, int (word_mod - 1), marshal_int64 1)
    ∷ (int 3, int 1, marshal_int64 3)
    ∷ (int 5, int 2, marshal_int64 5)
    ∷ []

abbrev counted_backwards : List Entry
counted_backwards =
    (int 5, int 2, marshal_int64 5)
    ∷ (int 3, int 1, marshal_int64 3)
    ∷ (int 1, int (word_mod - 1), marshal_int64 1)
    ∷ []

abbrev iterators : IteratorOps memory
iterators = record {
  map_iterate = λ m back. if back then yields counted_backwards else yields counted;
}

min_get_value-least_example :
    (v : Value) × (min_get_value memory iterators (λ k. none) ≡ ok v)
    × Counted v counted
    × (compare_values (λ s n. true) (int 5) v ≢ ok less_than)
unfolding monotonic_marshal marshal_int64 put_uint64
min_get_value-least_example =
    min_get_value-least (λ s n. true) memory iterators (λ k. none) counted (int 5) refl
      (
        (omega arith, refl),
        (refl, (refl, tt)),
        ((omega arith, refl), (refl, tt), ((omega arith, refl), tt, tt)),
      )
      (there (there (here refl)))

max_get_value-greatest_example :
    (v : Value) × (max_get_value memory iterators (λ k. none) ≡ ok v)
    × Counted v counted_backwards
    × (compare_values (λ s n. true) v (int 3) ≢ ok less_than)
unfolding monotonic_marshal marshal_int64 put_uint64
max_get_value-greatest_example =
    max_get_value-greatest (λ s n. true) memory iterators (λ k. none) counted_backwards (int 3) refl
      (
        (omega arith, refl),
        (refl, (refl, tt)),
        ((omega arith, refl), (refl, tt), ((omega arith, refl), tt, tt)),
      )
      (there (here refl))
