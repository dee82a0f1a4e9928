-- ===== src/Execution/StreamJoin.antt =====
-- execution/stream_join.go: what is kept under one key of a join, a record that arrives from either side,
-- and the trigger of the key. The prefix made of the key is left out.
pub mod Pairs
pub mod PairLaws
pub mod Sets
pub mod Reading
pub mod Moves
pub mod Counts
pub mod Kept
pub mod Changing
pub mod Adding
pub mod Triggering
pub mod Runs
pub mod Shapes
mod Memory
mod Tests
use octosql.Base.{
  ℕ, suc, Bool, true, false, not, ◌&&◌, ◌||◌, List, [], ◌∷◌, ◌++◌, Bytes, Outcome, ok, err, panic,
  ◌>>=◌, if◌then◌else◌, ltb, ◌==◌, length,
}
use octosql.Base.Int.{int_add, int_less}
use octosql.Value.{Value, int}
use octosql.Storage.{or_zero}
use octosql.Aggregates.{as_int}
use octosql.Execution.Records.{Record, with_undo}
use octosql.Execution.OrderBy.{next_count}
use octosql.Execution.StreamJoin.Pairs.{
  JoinType, JoinLibraries, record_to_value, read_records, check_event_times, records_to_trigger,
}

-- The four sets of records of a key.
pub data RecordSet : Type 0 where
  left_old right_old left_new right_new : RecordSet

-- The storage of a key: the count of each record, in the code under its serialization, and the
-- multisets; and the number of records sent, which in the code all keys share.
pub record JoinStorage : Type 1 where
  pub JoinState : Type 0
  pub counter_get : JoinState → Value → Outcome Value
  pub counter_set : JoinState → Value → Value → Outcome JoinState
  pub counter_clear : JoinState → Value → Outcome JoinState
  pub set_contains : JoinState → RecordSet → Value → Outcome Bool
  pub set_insert : JoinState → RecordSet → Value → Outcome JoinState
  pub set_erase : JoinState → RecordSet → Value → Outcome JoinState
  pub set_read_all : JoinState → RecordSet → Outcome (List Value)
  pub set_clear : JoinState → RecordSet → Outcome JoinState
  pub triggered_get : JoinState → Outcome Value
  pub triggered_set : JoinState → Value → Outcome JoinState

-- The new records of an input; an index other than 0 and 1 is a panic.
abbrev pub new_set : ℕ → Outcome RecordSet
new_set i = if i == 0 then ok left_new else if i == 1 then ok right_new else panic

module _ (lib : JoinLibraries) (o : JoinStorage) where
  open o use {JoinState}

  unfoldable pub keep_track_of_count : JoinState → Value → Bool → Outcome (JoinState × ℕ)
  keep_track_of_count s v undo = do
    current ← or_zero (o.counter_get s v)
    let updated = next_count undo (as_int current)
    s' ← if updated == 0 then o.counter_clear s v else o.counter_set s v (int updated)
    ok (s', updated)

  -- A record to the set, or its retraction: off the set, where it is there, or on it.
  unfoldable pub enter_record : JoinState → RecordSet → Record → Value → Outcome JoinState
  enter_record s set r v =
      if r.metadata.undo
      then (do
        present ← o.set_contains s set v
        if present
            then o.set_erase s set v
            else (do w ← record_to_value lib r; o.set_insert s set w))
      else o.set_insert s set v

  unfoldable pub add_joined : JoinState → ℕ → Record → Outcome JoinState
  unfolding keep_track_of_count enter_record record_to_value
  add_joined s input_index r = do
    set ← new_set input_index
    v ← record_to_value lib (with_undo false r)
    (s', count) ← keep_track_of_count s v r.metadata.undo
    if int_less count 0 || (count == 0 && not r.metadata.undo)
        then ok s'
        else enter_record s' set r v

  -- One new record goes to the old ones, or takes one of them away.
  unfoldable pub move_record : JoinState → RecordSet → Record → Outcome JoinState
  unfolding record_to_value
  move_record s old r = do
    v ← record_to_value lib (with_undo false r)
    elim r.metadata.undo [
      | true ↦ do present ← o.set_contains s old v; if present then o.set_erase s old v else panic
      | false ↦ o.set_insert s old v
    ]

  unfoldable pub move_records : JoinState → RecordSet → List Record → Outcome JoinState
  unfolding move_record
  move_records s old [] = ok s
  move_records s old (r ∷ rs) = do s' ← move_record s old r; move_records s' old rs

  unfoldable pub merge_new_and_old_records :
      JoinState → List Record → RecordSet → RecordSet → Outcome JoinState
  unfolding move_records
  merge_new_and_old_records s rs new old = do s' ← move_records s old rs; o.set_clear s' new

  unfoldable pub read_set : JoinState → RecordSet → Outcome (List Record)
  read_set s set = do vs ← o.set_read_all s set; read_records lib vs

  unfoldable pub trigger_joined : Bytes → JoinType → JoinState → Outcome (JoinState × List Record)
  unfolding merge_new_and_old_records records_to_trigger read_set
  trigger_joined event_field join_type s = do
    triggered ← or_zero (o.triggered_get s)
    old_left ← read_set s left_old
    old_right ← read_set s right_old
    new_left ← read_set s left_new
    new_right ← read_set s right_new
    _ ← check_event_times lib event_field new_left (old_right ++ new_right)
    _ ← check_event_times lib event_field old_left new_right
    let sent =
        records_to_trigger lib event_field join_type old_left old_right new_left new_right
          (as_int triggered)
    s1 ← merge_new_and_old_records s new_left left_new left_old
    s2 ← merge_new_and_old_records s1 new_right right_new right_old
    s3 ← o.triggered_set s2 (int (int_add (as_int triggered) (length sent)))
    ok (s3, sent)
