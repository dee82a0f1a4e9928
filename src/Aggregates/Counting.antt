-- ===== src/Aggregates/Counting.antt =====
-- execution/aggregates/count.go and distinct.go.
use octosql.Base.{ℕ, List, [], ◌∷◌, Outcome, ok, ◌>>=◌, ◌==◌, if◌then◌else◌}
use octosql.Base.Int.{int_add, int_sub, int_less}
use octosql.Value.{Value, int}
use octosql.Storage.{StorageOps, or_zero}

-- `AsInt`: 0 where the value is no int.
abbrev pub as_int : Value → ℕ
as_int (int w) = w
as_int _ = 0

-- A value that enters the group, or leaves it.
pub data Event : Type 0 where
  added retracted : Value → Event

-- The interface `Aggregate` over its state; GetValue may change the state.
pub record Aggregate : Type 1 where
  pub State : Type 0
  pub add_value : State → Value → Outcome State
  pub retract_value : State → Value → Outcome State
  pub get_value : State → Outcome (Value × State)

-- What a group does with the events that reach it.
abbrev pub apply_event : (a : Aggregate) → a.State → Event → Outcome a.State
apply_event a s (added v) = a.add_value s v
apply_event a s (retracted v) = a.retract_value s v

unfoldable pub run : (a : Aggregate) → a.State → List Event → Outcome a.State
run a s [] = ok s
run a s (e ∷ es) = apply_event a s e >>= λ s'. run a s' es

module _ (o : StorageOps) where
  unfoldable pub count_add_value : o.Cell → Value → Outcome o.Cell
  count_add_value c value = do
    current ← or_zero (o.cell_get c)
    o.cell_set c (int (int_add (as_int current) 1))

  unfoldable pub count_retract_value : o.Cell → Value → Outcome o.Cell
  count_retract_value c value = do
    current ← or_zero (o.cell_get c)
    let count = int_sub (as_int current) 1
    if count == 0 then o.cell_clear c else o.cell_set c (int count)

  unfoldable pub count_get_value : o.Cell → Outcome Value
  count_get_value c = do
    current ← or_zero (o.cell_get c)
    ok (if int_less (as_int current) 0 then int 0 else current)

  abbrev pub count : Aggregate
  count = record {
    State = o.Cell;
    add_value = count_add_value;
    retract_value = count_retract_value;
    get_value = λ c. count_get_value c >>= λ v. ok (v, c);
  }

  -- The state of DISTINCT beside that of the aggregate below it.
  module _ (underlying : Aggregate) where
    unfoldable pub distinct_add_value :
        o.Map × underlying.State → Value → Outcome (o.Map × underlying.State)
    distinct_add_value (m, s) value = do
      current ← or_zero (o.map_get m value)
      let count = int_add (as_int current) 1
      s' ← if count == 1 then underlying.add_value s value else ok s
      m' ← o.map_set m value (int count)
      ok (m', s')

    unfoldable pub distinct_retract_value :
        o.Map × underlying.State → Value → Outcome (o.Map × underlying.State)
    distinct_retract_value (m, s) value = do
      current ← or_zero (o.map_get m value)
      let count = int_sub (as_int current) 1
      if count == 0
          then (do s' ← underlying.retract_value s value; m' ← o.map_delete m value; ok (m', s'))
          else (do m' ← o.map_set m value (int count); ok (m', s))

    abbrev pub distinct : Aggregate
    distinct = record {
      State = o.Map × underlying.State;
      add_value = distinct_add_value;
      retract_value = distinct_retract_value;
      get_value = λ (m, s). underlying.get_value s >>= λ (v, s'). ok (v, (m, s'));
    }
