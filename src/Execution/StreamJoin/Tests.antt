-- ===== src/Execution/StreamJoin/Tests.antt =====
-- An application of the theorem on the pairs of a join, and runs of a key of a join over a store in
-- memory.
use octosql.Base.{
  bytes_equal, ℕ, ◌+◌, Bool, true, false, List, [], ◌∷◌, none, Outcome, ok, ◌>>=◌, ◌≡◌, refl, not,
}
use octosql.Value.{Value, int, cons, nil}
use octosql.Physical.Names.{new_variable_name}
use octosql.Execution.Records.{Record, record_value, new_record_from_slice, with_undo}
use octosql.Execution.StreamJoin.{add_joined, read_set, trigger_joined}
use octosql.Execution.StreamJoin.Pairs.{
  JoinLibraries, inner_join, outer_join, create_pairs_of_records, records_to_trigger,
  record_to_value, read_records, renamed_if, check_event_times,
}
use octosql.Execution.StreamJoin.Shapes.{Shape}
use octosql.Execution.StreamJoin.Runs.{JoinEvent, arrives, triggers}
use octosql.Execution.StreamJoin.Memory.{Contents, store}
use octosql.Execution.StreamJoin.PairLaws.{count_where, records_to_trigger-pairs}

abbrev libraries : JoinLibraries
libraries = record { to_lower = λ b. b; record_id_with_offset = λ n. n ∷ [] }

abbrev record_of : ℕ → ℕ → Record
record_of f n = new_record_from_slice ((f ∷ []) ∷ []) (cons (int n) nil)

abbrev is_kept : Record → Bool
is_kept r = not r.metadata.undo

records_to_trigger-pairs_example :
    count_where is_kept (
        records_to_trigger libraries [] outer_join
          (record_of 97 1 ∷ [])
          (record_of 98 2 ∷ [])
          (with_undo true (record_of 97 1) ∷ record_of 97 3 ∷ [])
          (record_of 98 4 ∷ [])
          7)
      + count_where is_kept
          (create_pairs_of_records libraries [] (record_of 97 1 ∷ []) (record_of 98 2 ∷ []) 0)
    ≡ count_where is_kept (
        create_pairs_of_records libraries []
          (record_of 97 1 ∷ with_undo true (record_of 97 1) ∷ record_of 97 3 ∷ [])
          (record_of 98 2 ∷ record_of 98 4 ∷ [])
          0)
      + 1
      + 1
records_to_trigger-pairs_example =
    records_to_trigger-pairs libraries [] is_kept (λ i r. refl) outer_join (record_of 97 1 ∷ [])
      (record_of 98 2 ∷ []) (with_undo true (record_of 97 1) ∷ record_of 97 3 ∷ [])
      (record_of 98 4 ∷ []) 7

abbrev empty : Contents
empty = record { counters = λ v. none; sets = λ set. []; triggered = none }

abbrev add_all : Contents → List (ℕ × Record) → Outcome Contents
unfolding add_joined
add_all s [] = ok s
add_all s ((i, r) ∷ rs) = do s' ← add_joined libraries store s i r; add_all s' rs

-- What the second of two triggers sends.
abbrev sent_second : List (ℕ × Record) → List (ℕ × Record) → Outcome (List Record)
unfolding add_joined trigger_joined read_set read_records
sent_second before after = do
  s ← add_all empty before
  (s1, out) ← trigger_joined libraries store [] inner_join s
  s2 ← add_all s1 after
  (s3, out') ← trigger_joined libraries store [] inner_join s2
  ok out'

abbrev undo_flags : List Record → List Bool
undo_flags [] = []
undo_flags (r ∷ rs) = r.metadata.undo ∷ undo_flags rs

abbrev second_flags : List (ℕ × Record) → List (ℕ × Record) → Outcome (List Bool)
unfolding add_joined trigger_joined read_set read_records
second_flags before after = do out ← sent_second before after; ok (undo_flags out)

-- A record that comes after a trigger is paired with the old ones.
pairs_with_old :
    second_flags ((0, record_of 97 1) ∷ []) ((1, record_of 98 2) ∷ []) ≡ ok (false ∷ [])
unfolding add_joined trigger_joined read_set read_records renamed_if record_to_value
    new_variable_name record_value check_event_times
pairs_with_old = refl

-- Retractions of both sides of one pair that was sent: three retractions are sent.
retracts_thrice :
    second_flags
      ((0, record_of 97 1) ∷ (1, record_of 98 2) ∷ [])
      ((0, with_undo true (record_of 97 1)) ∷ (1, with_undo true (record_of 98 2)) ∷ [])
    ≡ ok (true ∷ true ∷ true ∷ [])
unfolding add_joined trigger_joined read_set read_records renamed_if record_to_value
    new_variable_name record_value check_event_times
retracts_thrice = refl

-- An early retraction on the right takes away an equal record of the left: nothing is paired with it.
loses_left :
    second_flags
      ((1, with_undo true (record_of 97 1)) ∷ (0, record_of 97 1) ∷ [])
      ((1, record_of 97 2) ∷ [])
    ≡ ok []
unfolding add_joined trigger_joined read_set read_records renamed_if record_to_value
    new_variable_name record_value check_event_times
loses_left = refl

-- A record is of the left, where its first field is `a`.
abbrev is_left : Shape → Bool
is_left x = elim x.names [ [] ↦ false | f ∷ fs ↦ bytes_equal f (97 ∷ []) ]

abbrev arrivals : List JoinEvent
arrivals =
    arrives 0 (record_of 97 1)
    ∷ triggers
    ∷ arrives 0 (with_undo true (record_of 97 1))
    ∷ arrives 1 (record_of 98 2)
    ∷ []
