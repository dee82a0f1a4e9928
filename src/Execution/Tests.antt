-- ===== src/Execution/Tests.antt =====
-- Applications of the theorems on groups, over a storage in memory: COUNT of the field `x`, and DISTINCT.
use octosql.Base.{
  is_some, ◌≡◌, refl, ap, ◌∙◌, Bool, true, false, List, [], ◌∷◌, ◌++◌, Option, none, some, ok,
  after_ok, arith, err, end_of_stream, ◌==◌, Bool-cases, inl, inr, if◌then◌else◌,
}
use octosql.Base.Int.{int_sub}
use octosql.Value.{Value, int, Values, nil, cons, tuple, value_equal, value_equal_iff}
use octosql.Storage.{or_zero, found}
use octosql.Storage.Memory.{memory, memory_laws}
use octosql.Aggregates.{as_int, count, count_add_value, count_retract_value, count_get_value}
use octosql.Execution.Records.{Record, new_record_from_slice, with_undo, with_id}
use octosql.Execution.GroupBy.{
  GroupLibraries, GroupByStream, GroupState, Step, arrives, triggered, run_group, trigger,
}
use octosql.Execution.Range.{i_name, RangeStream, range_get, range_next}
use octosql.Execution.RangeLaws.{nexts, range_next-range_get}
use octosql.Execution.GroupBy.Outputs.{RecordComparison, Follows}
use octosql.Execution.GroupBy.Consistency.{Works}
use octosql.Execution.GroupBy.Runs.{run_group-trigger}
use octosql.Execution.Distinct as Distinct
use octosql.Execution.Distinct.{
  RecordOps, found_record, RecordLaws, DistinctState, DistinctStep, run_distinct, trigger_distinct,
}
use octosql.Execution.Distinct.Runs.{run_distinct-trigger_distinct}

counted : (c : Option Value) → (v : Value) × (or_zero (found c) ≡ ok v)
counted none = (int 0, refl)
counted (some v) = (v, refl)

count_add_value_works :
    (c : Option Value) (v : Value) → (c' : Option Value) × (count_add_value memory c v ≡ ok c')
unfolding count_add_value
count_add_value_works c v = let (w, e) = counted c in (_, after_ok _ e refl)

count_retract_value_works :
    (c : Option Value) (v : Value) → (c' : Option Value) × (count_retract_value memory c v ≡ ok c')
unfolding count_retract_value
count_retract_value_works c v =
    let (w, e) = counted c in
    let n = int_sub (as_int w) 1 in
    let choice = λ (b : Bool). if b then memory.cell_clear c else memory.cell_set c (int n) in
    elim (Bool-cases (n == 0)) [
      | inl z ↦ (_, after_ok _ e (ap choice z))
      | inr z ↦ (_, after_ok _ e (ap choice z))
    ]

count_get_value_works :
    (c : Option Value)
    → (v : Value) × (c' : Option Value) × ((count memory).get_value c ≡ ok (v, c'))
unfolding count_get_value
count_get_value_works c = let (w, e) = counted c in (_, c, after_ok _ (after_ok _ e refl) refl)

count_works : Works (count memory)
count_works = (count_add_value_works, count_retract_value_works, count_get_value_works)

abbrev libraries : GroupLibraries
libraries = record {
  to_lower = λ b. b;
  show_int = λ n. n ∷ [];
  records_equal = λ r s. value_equal (tuple r.record_data) (tuple s.record_data);
}

-- Records are compared by the contents of their values.
tuple_data : (vs ws : Values) → value_equal (tuple vs) (tuple ws) ≡ true → vs ≡ ws
tuple_data vs ws h = let e = (value_equal_iff (tuple vs) (tuple ws)).0 h in cc

abbrev comparison : RecordComparison libraries
comparison = record {
  Same = λ v w. v ≡ w;
  same_refl = λ v. refl;
  same_trans = λ {u} {v} {w} e f. e ∙ f;
  records_equal_lem = λ r s e. tuple_data r.record_data s.record_data e;
}

abbrev stream : GroupByStream
stream = record {
  aggregates = (120 ∷ [], count memory) ∷ [];
  output_field_names = (110 ∷ []) ∷ [];
  output_event_time_field = none;
  stream_id = 115 ∷ [];
}

abbrev incoming : Record
incoming = new_record_from_slice ((120 ∷ []) ∷ []) (cons (int 4) nil)

abbrev steps : List (Step memory libraries stream)
steps = arrives incoming ∷ triggered ∷ arrives (with_undo true incoming) ∷ []

abbrev fresh : GroupState memory libraries stream
fresh = record {
  record_count = none;
  previously_triggered = none;
  triggered_count = none;
  states = (none, tt);
}

run_group-trigger_example :
    (out : List Record) × (s' : GroupState memory libraries stream) × (out' : List Record)
    × (s'' : GroupState memory libraries stream) × (shown : Option Values) × (run_group memory
          libraries stream fresh steps
        ≡ ok (out, s'))
    × (trigger memory libraries stream s' ≡ ok (out', s''))
    × Follows comparison.Same none (out ++ out') shown
    × (is_some shown ≡ false)
run_group-trigger_example =
    run_group-trigger memory memory_laws libraries comparison stream (count_works, tt) steps fresh
      (tt, (tt, tt)) refl refl (omega arith)

abbrev record_memory : RecordOps
record_memory = record {
  RecordCell = Option Record;
  record_get = found_record;
  record_set = λ x r. ok (some r);
  record_clear = λ x. ok none;
}

abbrev record_memory_laws : RecordLaws record_memory
record_memory_laws = record {
  kept = λ x. x;
  keep = λ x r. r;
  record_get_lem = λ x. refl;
  record_set_lem = λ x r. refl;
  record_clear_lem = λ x. refl;
  kept-keep = λ x r. refl;
}

abbrev no_records : DistinctState memory record_memory
no_records = record { record_count = none; key_id = none; key_record = none; was_triggered = none }

abbrev numbered : Record
numbered = with_id (49 ∷ []) incoming

abbrev distinct_steps : List (DistinctStep memory record_memory)
distinct_steps =
    Distinct.arrives numbered
    ∷ Distinct.triggered
    ∷ Distinct.arrives (with_undo true numbered)
    ∷ Distinct.triggered
    ∷ Distinct.arrives numbered
    ∷ []

run_distinct-trigger_distinct_example :
    (out : List Record) × (s' : DistinctState memory record_memory) × (out' : List Record)
    × (s'' : DistinctState memory record_memory) × (shown : Option Values) × (run_distinct memory
          record_memory no_records distinct_steps
        ≡ ok (out, s'))
    × (trigger_distinct memory record_memory s' ≡ ok (out', s''))
    × Follows (λ d d'. d ≡ d') none (out ++ out') shown
    × (is_some shown ≡ true)
run_distinct-trigger_distinct_example =
    run_distinct-trigger_distinct memory memory_laws record_memory record_memory_laws
      (cons (int 4) nil) distinct_steps no_records refl refl
      (refl, refl, (refl, refl, (refl, refl, tt))) (omega arith)

-- The records of a number.
abbrev number : Value → Record
number v = new_record_from_slice (i_name ∷ []) (cons v nil)

-- From -1 to 1.
range_next-range_get_example :
    (s s' : RangeStream memory) × (range_get memory
        (ok (int 18446744073709551615))
        (ok (int 1))
        none
      ≡ ok s)
    × (nexts memory 2 s ≡ ok (number (int 18446744073709551615) ∷ number (int 0) ∷ [], s'))
    × (range_next memory s' ≡ err end_of_stream)
range_next-range_get_example =
    range_next-range_get memory memory_laws none 18446744073709551615 2 (omega arith) (omega arith)
