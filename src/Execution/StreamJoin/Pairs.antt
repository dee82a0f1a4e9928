-- ===== src/Execution/StreamJoin/Pairs.antt =====
-- execution/stream_join.go: how records are written into the sets and read from them, and the records that
-- a trigger sends for the records read.
use octosql.Base.{
  ℕ, Bool, true, false, ◌||◌, List, [], ◌∷◌, ◌++◌, map, Bytes, Outcome, ok, panic, ◌>>=◌,
  if◌then◌else◌, bytes_equal, length,
}
use octosql.Base.Int.{int_add}
use octosql.Value.{Value, Values, zero_value, bool, string, tuple, nil, cons}
use octosql.Functions.Sequences.{as_text}
use octosql.Physical.Names.{new_variable_name}
use octosql.Execution.Records.{
  Record, record_value, new_record_from_slice, with_id, with_undo, with_event_time_field,
}

pub data JoinType : Type 0 where
  inner_join left_join outer_join : JoinType

-- strings.ToLower, and the ID of the stream with a number behind it.
pub record JoinLibraries : Type 0 where
  pub to_lower : Bytes → Bytes
  pub record_id_with_offset : ℕ → Bytes

-- `AsSlice`; a value that is no tuple is a panic.
abbrev slice_of : Value → Outcome Values
slice_of (tuple vs) = ok vs
slice_of _ = panic

abbrev flag_of : Value → Bool
flag_of (bool b) = b
flag_of _ = false

abbrev pub name_values : List Bytes → Values
name_values [] = nil
name_values (f ∷ fs) = cons (string f) (name_values fs)

abbrev zero_values : Values → Values
zero_values nil = nil
zero_values (cons v vs) = cons zero_value (zero_values vs)

-- The copy of the data, by the names: data without a name stay zero.
abbrev pub copy_data : List Bytes → Values → Outcome Values
copy_data [] vs = ok (zero_values vs)
copy_data (f ∷ fs) nil = panic
copy_data (f ∷ fs) (cons v vs) = do rest ← copy_data fs vs; ok (cons v rest)

abbrev join_values : Values → Values → Values
join_values nil ws = ws
join_values (cons v vs) ws = cons v (join_values vs ws)

abbrev pub add_left_records : JoinType → Bool
add_left_records left_join = true
add_left_records outer_join = true
add_left_records inner_join = false

abbrev pub add_right_records : JoinType → Bool
add_right_records outer_join = true
add_right_records _ = false

module _ (lib : JoinLibraries) where
  abbrev pub event_name : Record → Bytes
  unfolding new_variable_name
  event_name r = new_variable_name lib.to_lower r.metadata.event_time_field

  unfoldable pub record_to_value : Record → Outcome Value
  unfolding new_variable_name
  record_to_value r = do
    data_copy ← copy_data r.field_names r.record_data
    ok (
        tuple (
          cons (tuple (name_values r.field_names)) (
            cons (tuple data_copy)
              (cons (bool r.metadata.undo) (cons (string (event_name r)) nil)))))

  abbrev pub read_names : Values → List Bytes
  unfolding new_variable_name
  read_names nil = []
  read_names (cons v vs) = new_variable_name lib.to_lower (as_text v) ∷ read_names vs

  abbrev record_of_slices : Value → Value → Value → Value → Outcome Record
  unfolding new_variable_name
  record_of_slices names contents undo event = do
    fields ← slice_of names
    vs ← slice_of contents
    let event_field = new_variable_name lib.to_lower (as_text event)
    ok (
        with_undo (flag_of undo)
          (with_event_time_field event_field (new_record_from_slice (read_names fields) vs)))

  unfoldable pub value_to_record : Value → Outcome Record
  unfolding new_variable_name
  value_to_record (tuple (cons names (cons contents (cons undo (cons event rest))))) =
      record_of_slices names contents undo event
  value_to_record _ = panic

  unfoldable pub read_records : List Value → Outcome (List Record)
  unfolding value_to_record
  read_records [] = ok []
  read_records (v ∷ vs) = do r ← value_to_record v; rs ← read_records vs; ok (r ∷ rs)

  -- The single records that a LEFT or an OUTER join sends.
  unfoldable pub rename_records : List Record → ℕ → List Record
  rename_records [] offset = []
  rename_records (r ∷ rs) offset =
      with_id (lib.record_id_with_offset offset) r ∷ rename_records rs (int_add offset 1)

  unfoldable pub renamed_if : Bool → List Record → ℕ → List Record
  unfolding rename_records
  renamed_if true rs offset = rename_records rs offset
  renamed_if false rs offset = []

  module _ (event_field : Bytes) where
    abbrev event_names : List Bytes
    event_names = if bytes_equal event_field [] then [] else event_field ∷ []

    -- The time that is appended; that there is one, `check_event_times` asks before.
    abbrev event_value : Outcome Value → Values
    event_value (ok v) = cons v nil
    event_value _ = nil

    abbrev event_values : Record → Values
    unfolding record_value new_variable_name
    event_values l =
        if bytes_equal event_field []
        then nil
        else event_value (record_value lib.to_lower l (event_name l))

    -- The calls of `EventTime` for the left records that are paired: a panic where one of them has no
    -- value for its event time.
    unfoldable pub check_event_times : List Record → List Record → Outcome Bool
    unfolding record_value new_variable_name
    check_event_times [] rs = ok true
    check_event_times (l ∷ ls) [] = ok true
    check_event_times (l ∷ ls) (r ∷ rs) =
        if bytes_equal event_field []
        then ok true
        else (do time ← record_value lib.to_lower l (event_name l); check_event_times ls (r ∷ rs))

    unfoldable pub merge_records : Record → Record → Bytes → Bool → Record
    unfolding record_value new_variable_name
    merge_records l r id undo =
        let names = map (new_variable_name lib.to_lower) (l.field_names ++ r.field_names) in
        let vs = join_values l.record_data r.record_data in
        with_event_time_field event_field (
          with_undo undo (
            with_id id
              (new_record_from_slice (names ++ event_names) (join_values vs (event_values l)))))

    -- The inner loop of `createPairsOfRecords`.
    unfoldable pub pairs_with : Record → List Record → ℕ → List Record
    unfolding merge_records
    pairs_with l [] offset = []
    pairs_with l (r ∷ rs) offset =
        merge_records l r (lib.record_id_with_offset offset) (l.metadata.undo || r.metadata.undo)
        ∷ pairs_with l rs (int_add offset 1)

    unfoldable pub create_pairs_of_records : List Record → List Record → ℕ → List Record
    unfolding pairs_with
    create_pairs_of_records [] rs offset = []
    create_pairs_of_records (l ∷ ls) rs offset =
        let pairs = pairs_with l rs offset in
        pairs ++ create_pairs_of_records ls rs (int_add offset (length pairs))

    -- What `Trigger` sends for the records that it has read.
    unfoldable pub records_to_trigger :
        JoinType → List Record → List Record → List Record → List Record → ℕ → List Record
    unfolding create_pairs_of_records rename_records
    records_to_trigger join_type old_left old_right new_left new_right offset =
        let by_left = create_pairs_of_records new_left (old_right ++ new_right) offset in
        let offset1 = int_add offset (length by_left) in
        let by_right = create_pairs_of_records old_left new_right offset1 in
        let offset2 = int_add offset1 (length by_right) in
        let lefts = renamed_if (add_left_records join_type) new_left offset2 in
        let offset3 = int_add offset2 (length lefts) in
        by_left
        ++ (by_right ++ (lefts ++ renamed_if (add_right_records join_type) new_right offset3))
