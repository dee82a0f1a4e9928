-- ===== src/Triggers/Tests.antt =====
-- Applications of the theorems on triggers, over the storage in memory.
use octosql.Base.{
  ◌≡◌, refl, List, [], ◌∷◌, true, some, none, ok, err, not_found, arith, if◌then◌else◌, is_some,
}
use octosql.Value.{Value, int, time, null, value_equal, value_equal_iff}
use octosql.Storage.{IteratorOps}
use octosql.Storage.Memory.{memory, memory_laws}
use octosql.Triggers.TimeSortedKeys.{time_key, TimeSortedKeys, update, delete_by_key}
use octosql.Triggers.TimeSortedKeysLaws.{Mirrors, update-Mirrors, delete_by_key-Mirrors}
use octosql.Triggers.TimeTriggers.{Time, WatermarkState}
use octosql.Triggers.TimeTriggersLaws.{listed}
use octosql.Triggers.CountingLaws.{fire_each, firings, fire_each-firings}

-- Two keys, one of them with two records.
abbrev keys : List Value
keys = int 1 ∷ int 2 ∷ int 1 ∷ []

fire_each-firings_example :
    fire_each memory 2 ((λ k. none), none) keys ≡ ok (firings 2 (λ _. 0) keys)
fire_each-firings_example =
    fire_each-firings memory memory_laws 2 (omega arith) (omega arith) keys (λ k. none) none
      (λ j. refl) refl

abbrev empty : memory.Map
empty = λ k. none

update-Mirrors_example :
    (s : TimeSortedKeys (λ s n. true) memory) × (update
        (λ s n. true)
        memory
        (empty, empty)
        (int 1)
        (5, 0)
      ≡ ok s)
    × Mirrors (λ s n. true) memory memory_laws s
    × (s.1 (int 1) ≡ some (time 5 0))
update-Mirrors_example =
    update-Mirrors (λ s n. true) memory memory_laws (empty, empty) (int 1) 5 0 refl
      (λ k t. (λ h. cc, λ h. cc))

-- The key 1 at the time 5.
abbrev at_five : TimeSortedKeys (λ s n. true) memory
at_five = (
  (λ j. if value_equal (time_key (time 5 0) (int 1)) j then some null else none),
  (λ j. if value_equal (int 1) j then some (time 5 0) else none),
)

at_five-Mirrors : Mirrors (λ s n. true) memory memory_laws at_five
at_five-Mirrors k t = ground (arith, value_equal_iff (time 5 0) t, value_equal_iff (int 1) k)

delete_by_key-Mirrors_example :
    ((s : TimeSortedKeys (λ s n. true) memory) × (delete_by_key (λ s n. true) memory at_five (int 1)
        ≡ ok s)
      × Mirrors (λ s n. true) memory memory_laws s
      × (s.1 (int 1) ≡ none))
    × (delete_by_key (λ s n. true) memory at_five (int 2) ≡ err not_found)
delete_by_key-Mirrors_example =
    delete_by_key-Mirrors (λ s n. true) memory memory_laws at_five (int 1) (int 2) 5 0 refl
      at_five-Mirrors refl refl

-- The key 1 at the time 5 and the key 2 at the time 9.
abbrev both : TimeSortedKeys (λ s n. true) memory
both = (
  (λ j. if value_equal (time_key (time 9 0) (int 2)) j then some null else at_five.0 j),
  (λ j. if value_equal (int 2) j then some (time 9 0) else at_five.1 j),
)

-- Those of some keys with times that a map by time holds, and the iterator over two keys.
abbrev present : memory.Map → List (Value × Time) → List (Value × Time)
present m [] = []
present m ((key, (s, n)) ∷ rest) =
    let others = present m rest in
    if is_some (m (time_key (time s n) key)) then (key, (s, n)) ∷ others else others

abbrev iterator : IteratorOps memory
iterator = record {
  map_iterate = λ m back. listed (present m ((int 1, (5, 0)) ∷ (int 2, (9, 0)) ∷ []));
}

-- Both keys, before any watermark.
abbrev waiting : WatermarkState (λ s n. true) memory iterator
waiting = record { time_keys = both; watermark = none; ready_to_fire = none }
