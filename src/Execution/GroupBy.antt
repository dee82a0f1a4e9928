-- ===== src/Execution/GroupBy.antt =====
-- execution/group_by.go: what a group of records keeps under its key, and what it sends when it is
-- triggered. Value states are those of the storage, each under its own prefix.
pub mod Outputs
pub mod Consistency
pub mod Runs
use octosql.Base.{
  ℕ, Bool, true, false, List, [], ◌∷◌, ◌++◌, length, Option, none, some, Bytes, bytes_equal,
  Outcome, ok, err, panic, ◌>>=◌, not_found, ◌==◌, if◌then◌else◌,
}
use octosql.Base.Int.{int_add, int_sub, int_positive}
use octosql.Value.{Value, int, tuple, object, Values, nil, cons, no_fields}
use octosql.Storage.{StorageOps, or_zero}
use octosql.Aggregates.{Aggregate, as_int}
use octosql.Execution.Records.{
  Record, new_record_from_slice, with_undo, with_event_time_field, with_id, record_value,
  all_fields,
}

-- What the stream calls of the libraries: `strings.ToLower`, `fmt.Sprintf("%d", i)` and `proto.Equal`.
pub record GroupLibraries : Type 0 where
  pub to_lower : Bytes → Bytes
  pub show_int : ℕ → Bytes
  pub records_equal : Record → Record → Bool

-- A `GroupByStream`: its aggregates with their input fields, the names of the output fields, the output
-- field of the event time where records are grouped by it, and the ID of the stream.
pub record GroupByStream : Type 1 where
  pub aggregates : List (Bytes × Aggregate)
  pub output_field_names : List Bytes
  pub output_event_time_field : Option Bytes
  pub stream_id : Bytes

abbrev pub States : List (Bytes × Aggregate) → Type 0
States [] = Unit
States ((f, a) ∷ ags) = a.State × States ags

-- `*star*`.
abbrev pub star_name : Bytes
star_name = 42 ∷ 115 ∷ 116 ∷ 97 ∷ 114 ∷ 42 ∷ []

unfoldable pub input_value : GroupLibraries → Record → Bytes → Outcome Value
unfolding record_value all_fields
input_value lib r name =
    if bytes_equal name star_name
    then (do fields ← all_fields lib.to_lower r r.field_names no_fields; ok (object fields))
    else record_value lib.to_lower r name

-- The loop that updates the aggregates.
unfoldable pub update_aggregates :
    GroupLibraries → (ags : List (Bytes × Aggregate)) → States ags → Record → Outcome (States ags)
unfolding input_value
update_aggregates lib [] s r = ok s
update_aggregates lib ((f, a) ∷ ags) (s, ss) r = do
  value ← input_value lib r f
  s' ← if r.metadata.undo then a.retract_value s value else a.add_value s value
  ss' ← update_aggregates lib ags ss r
  ok (s', ss')

unfoldable pub get_values :
    (ags : List (Bytes × Aggregate)) → States ags → Outcome (Values × States ags)
get_values [] s = ok (nil, s)
get_values ((f, a) ∷ ags) (s, ss) = do
  (v, s') ← a.get_value s
  (vs, ss') ← get_values ags ss
  ok (cons v vs, (s', ss'))

-- `AsSlice`, which panics on a value that is no tuple.
abbrev pub tuple_values : Option Value → Outcome (Option Values)
tuple_values none = ok none
tuple_values (some (tuple vs)) = ok (some vs)
tuple_values (some _) = panic

-- `none` where the storage has nothing.
abbrev pub optional : Outcome Value → Outcome (Option Value)
optional (ok v) = ok (some v)
optional (err not_found) = ok none
optional (err e) = err e
optional panic = panic

abbrev pub with_event_time : Option Bytes → Record → Record
with_event_time none r = r
with_event_time (some f) r = with_event_time_field f r

module _ (o : StorageOps) (lib : GroupLibraries) (g : GroupByStream) where
  pub record GroupState : Type 0 where
    pub record_count : o.Cell
    pub previously_triggered : o.Cell
    pub triggered_count : o.Cell
    pub states : States g.aggregates

  unfoldable pub add_record : GroupState → Record → Outcome GroupState
  unfolding update_aggregates
  add_record s r = do
    current ← or_zero (o.cell_get s.record_count)
    let count = if r.metadata.undo then int_sub (as_int current) 1 else int_add (as_int current) 1
    c ← if count == 0 then o.cell_clear s.record_count else o.cell_set s.record_count (int count)
    states' ← update_aggregates lib g.aggregates s.states r
    ok (record s { record_count = c; states = states' })

  abbrev pub output_record : Values → Record
  output_record vs =
      with_event_time g.output_event_time_field (new_record_from_slice g.output_field_names vs)

  -- The retraction of what was triggered before, where there is any, and the new record.
  abbrev pub retraction_of : Option Values → List Record
  retraction_of none = []
  retraction_of (some v) = with_undo true (output_record v) ∷ []

  abbrev pub record_of : Option Values → List Record
  record_of none = []
  record_of (some vs) = output_record vs ∷ []

  -- Whether the two cancel each other out.
  abbrev pub cancel_out : List Record → Bool
  cancel_out (r ∷ r' ∷ []) = lib.records_equal (with_undo false r) r'
  cancel_out _ = false

  abbrev pub assign_ids : ℕ → List Record → List Record
  assign_ids n [] = []
  assign_ids n (r ∷ rs) =
      with_id (g.stream_id ++ 46 ∷ lib.show_int n) r ∷ assign_ids (int_add n 1) rs

  -- The new values, which are saved, where the group has records.
  unfoldable pub current_values : GroupState → Value → Outcome (Option Values × GroupState)
  unfolding get_values
  current_values s count =
      if int_positive (as_int count)
      then (do
        (vs, states') ← get_values g.aggregates s.states
        p ← o.cell_set s.previously_triggered (tuple vs)
        ok (some vs, record s { previously_triggered = p; states = states' }))
      else (do
        p ← o.cell_clear s.previously_triggered
        ok (none, record s { previously_triggered = p }))

  unfoldable pub number_outputs : List Record → GroupState → Outcome (List Record × GroupState)
  number_outputs output s = do
    current ← or_zero (o.cell_get s.triggered_count)
    let n = as_int current
    c ← o.cell_set s.triggered_count (int (int_add n (length output)))
    ok (assign_ids n output, record s { triggered_count = c })

  unfoldable pub trigger : GroupState → Outcome (List Record × GroupState)
  unfolding current_values number_outputs
  trigger s = do
    stored ← optional (o.cell_get s.previously_triggered)
    previous ← tuple_values stored
    count ← or_zero (o.cell_get s.record_count)
    (values, s') ← current_values s count
    let output = retraction_of previous ++ record_of values
    if cancel_out output then ok ([], s') else number_outputs output s'

  -- A group receives records and is triggered, in any order.
  pub data Step : Type 0 where
    arrives : Record → Step
    triggered : Step

  unfoldable pub run_group : GroupState → List Step → Outcome (List Record × GroupState)
  unfolding add_record trigger
  run_group s [] = ok ([], s)
  run_group s (arrives r ∷ steps) = do s' ← add_record s r; run_group s' steps
  run_group s (triggered ∷ steps) = do
    (output, s') ← trigger s
    (outputs, s'') ← run_group s' steps
    ok (output ++ outputs, s'')
