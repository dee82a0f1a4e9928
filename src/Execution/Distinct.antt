-- ===== src/Execution/Distinct.antt =====
-- execution/distinct.go: what a group of equal records keeps under its key, and what it sends when it is
-- triggered.

pub mod Tally
pub mod Runs
use octosql.Base.{
  ℕ, Bool, true, false, not, ◌&&◌, ◌||◌, List, [], ◌∷◌, ◌++◌, Option, none, some, is_some, Bytes,
  Outcome, ok, err, panic, ◌>>=◌, not_found, ◌==◌, if◌then◌else◌, ◌≡◌,
}
use octosql.Base.Int.{int_add, int_sub, int_positive}
use octosql.Value.{Value, int, string, phantom}
use octosql.Storage.{StorageOps, or_zero}
use octosql.Aggregates.{as_int}
use octosql.Execution.Records.{Record, with_undo, with_id}
use octosql.Execution.GroupBy.{optional}

-- A value state that holds a record.
pub record RecordOps : Type 1 where
  pub RecordCell : Type 0
  pub record_get : RecordCell → Outcome Record
  pub record_set : RecordCell → Record → Outcome RecordCell
  pub record_clear : RecordCell → Outcome RecordCell

abbrev pub found_record : Option Record → Outcome Record
found_record none = err not_found
found_record (some r) = ok r

-- One that works.
pub record RecordLaws (c : RecordOps) : Type 1 where
  pub kept : c.RecordCell → Option Record
  pub keep : c.RecordCell → Option Record → c.RecordCell
  pub record_get_lem : (x : c.RecordCell) → c.record_get x ≡ found_record (kept x)
  pub record_set_lem : (x : c.RecordCell) (r : Record) → c.record_set x r ≡ ok (keep x (some r))
  pub record_clear_lem : (x : c.RecordCell) → c.record_clear x ≡ ok (keep x none)
  pub kept-keep : (x : c.RecordCell) (r : Option Record) → kept (keep x r) ≡ r

-- `AsString` of the ID that was read, which is empty where there is none.
abbrev pub id_or_empty : Option Value → Bytes
id_or_empty (some (string b)) = b
id_or_empty _ = []

abbrev pub optional_record : Outcome Record → Outcome (Option Record)
optional_record (ok r) = ok (some r)
optional_record (err not_found) = ok none
optional_record (err e) = err e
optional_record panic = panic

abbrev pub is_present : Option Value → Bool
is_present none = false
is_present (some count) = int_positive (as_int count)

-- `NewRecordFromRecord` of the record that was read: it panics on a record without metadata, which the
-- record is where none was read.
abbrev pub sent_record : Option Record → Bool → Bytes → Outcome (List Record)
sent_record none undo record_id = panic
sent_record (some r) undo record_id = ok (with_id record_id (with_undo undo r) ∷ [])

-- A record without an ID is a panic.
abbrev pub require_id {ℓ} : {A : Type ℓ} → Option Bytes → (Bytes → Outcome A) → Outcome A
require_id none next = panic
require_id (some record_id) next = next record_id

module _ (o : StorageOps) (c : RecordOps) where
  pub record DistinctState : Type 0 where
    pub record_count : o.Cell
    pub key_id : o.Cell
    pub key_record : c.RecordCell
    pub was_triggered : o.Cell

  -- The new count, and the record where it is the first one.
  unfoldable pub count_record : DistinctState → Record → ℕ → Outcome DistinctState
  count_record s r count =
      if count == 0
      then (do n ← o.cell_clear s.record_count; ok (record s { record_count = n }))
      else (do
        n ← o.cell_set s.record_count (int count)
        k ← if count == 1 then c.record_set s.key_record r else ok s.key_record
        ok (record s { record_count = n; key_record = k }))

  -- `AddRecord` of a record with an ID.
  unfoldable pub add_with_id : DistinctState → Record → Bytes → Outcome DistinctState
  unfolding count_record
  add_with_id s r record_id = do
    current ← or_zero (o.cell_get s.record_count)
    let undo = r.metadata.undo
    let count = if undo then int_sub (as_int current) 1 else int_add (as_int current) 1
    s' ← count_record s r count
    i ←
        if not undo && count == 1 || undo && count == 0
        then o.cell_set s'.key_id (string record_id)
        else ok s'.key_id
    ok (record s' { key_id = i })

  unfoldable pub add_distinct : DistinctState → Record → Outcome DistinctState
  unfolding add_with_id
  add_distinct s r = require_id r.metadata.record_id (add_with_id s r)

  -- The three cases of `Trigger`, once everything is read.
  unfoldable pub send_distinct :
      DistinctState → Bool → Bool → Bytes → Option Record → Outcome (List Record × DistinctState)
  send_distinct s false true record_id r = do
    t ← o.cell_set s.was_triggered phantom
    output ← sent_record r false record_id
    ok (output, record s { was_triggered = t })
  send_distinct s true false record_id r = do
    t ← o.cell_clear s.was_triggered
    i ← o.cell_clear s.key_id
    k ← c.record_clear s.key_record
    output ← sent_record r true record_id
    ok (output, record s { was_triggered = t; key_id = i; key_record = k })
  send_distinct s _ _ record_id r = ok ([], s)

  unfoldable pub trigger_distinct : DistinctState → Outcome (List Record × DistinctState)
  unfolding send_distinct
  trigger_distinct s = do
    triggered ← optional (o.cell_get s.was_triggered)
    count ← optional (o.cell_get s.record_count)
    record_id ← optional (o.cell_get s.key_id)
    r ← optional_record (c.record_get s.key_record)
    send_distinct s (is_some triggered) (is_present count) (id_or_empty record_id) r

  pub data DistinctStep : Type 0 where
    arrives : Record → DistinctStep
    triggered : DistinctStep

  unfoldable pub run_distinct :
      DistinctState → List DistinctStep → Outcome (List Record × DistinctState)
  unfolding add_distinct trigger_distinct
  run_distinct s [] = ok ([], s)
  run_distinct s (arrives r ∷ steps) = do s' ← add_distinct s r; run_distinct s' steps
  run_distinct s (triggered ∷ steps) = do
    (output, s') ← trigger_distinct s
    (outputs, s'') ← run_distinct s' steps
    ok (output ++ outputs, s'')
