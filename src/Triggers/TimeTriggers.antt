-- ===== src/Triggers/TimeTriggers.antt =====
-- execution/trigger: the reading of the keys sorted by time (timesortedkeys.go), and the delay and
-- watermark triggers over them (delay.go, watermark.go). Times are seconds and nanoseconds.
use octosql.Base.{
  ℕ, zero, suc, Bool, true, false, List, [], ◌∷◌, Option, none, some, Outcome, ok, err, panic,
  ◌>>=◌, not_found, storage_corruption, if◌then◌else◌,
}
use octosql.Value.{Value, time, bool, tuple, nil, cons, time_before}
use octosql.SortedKeys.{make_time}
use octosql.Storage.{StorageOps, IteratorOps}
use octosql.Triggers.TimeSortedKeys.{TimeSortedKeys, as_time, update, delete, delete_by_key}

abbrev pub Time : Type 0
Time = ℕ × ℕ

-- `t.Before(t')`; `t'.After(t)` is the same.
abbrev pub is_before : Time → Time → Bool
is_before (s, n) (s', n') = time_before s n s' n'

-- The time and the key of an entry; any other entry is a corruption of the storage.
unfoldable pub split_time_key : Value → Outcome (Time × Value)
split_time_key (tuple (cons (time s n) (cons key nil))) = ok ((s, n), key)
split_time_key _ = err storage_corruption

-- The loop of `GetUntil`, with room for so many more keys.
unfoldable pub get_until_loop :
    ℕ → Time → List (Outcome (Value × Value)) → Outcome (List (Value × Time))
unfolding split_time_key
get_until_loop room until [] = ok []
get_until_loop room until (err e ∷ rest) = err e
get_until_loop room until (panic ∷ rest) = panic
get_until_loop zero until (ok (entry, v) ∷ rest) = split_time_key entry >>= λ _. ok []
get_until_loop (suc room) until (ok (entry, v) ∷ rest) = do
  (t, key) ← split_time_key entry
  let more = get_until_loop room until rest
  if is_before until t then ok [] else more >>= λ found. ok ((key, t) ∷ found)

abbrev pub keys_of : List (Value × Time) → List Value
keys_of [] = []
keys_of ((key, t) ∷ rest) = key ∷ keys_of rest

module _ (valid_time : ℕ → ℕ → Bool) (o : StorageOps) (it : IteratorOps o) where
  unfoldable pub get_until : TimeSortedKeys valid_time o → Time → ℕ → Outcome (List (Value × Time))
  unfolding get_until_loop
  get_until (by_time, by_key) until batch_size =
      get_until_loop batch_size until (it.map_iterate by_time false)

  -- `none` stands for ErrNotFound.
  unfoldable pub get_first : TimeSortedKeys valid_time o → Outcome (Option (Value × Time))
  unfolding split_time_key
  get_first (by_time, by_key) = elim (it.map_iterate by_time false) [
    | [] ↦ ok none
    | first ∷ rest ↦ first >>= λ (entry, v). split_time_key entry >>= λ (t, key). ok (some (key, t))
  ]

  -- The loop that deletes the keys that are sent.
  unfoldable pub delete_each :
      TimeSortedKeys valid_time o → List (Value × Time) → Outcome (TimeSortedKeys valid_time o)
  unfolding delete
  delete_each s [] = ok s
  delete_each s ((key, t) ∷ rest) = do s' ← delete valid_time o s key t; delete_each s' rest

  -- The delay trigger; `send_time` is the clock and the delay, and `now` the clock.
  unfoldable pub delay_record_received :
      TimeSortedKeys valid_time o → Value → Time → Outcome (TimeSortedKeys valid_time o)
  unfolding update
  delay_record_received s key send_time = update valid_time o s key send_time

  unfoldable pub delay_poll :
      TimeSortedKeys valid_time o → Time → ℕ → Outcome (List Value × TimeSortedKeys valid_time o)
  unfolding get_until delete_each
  delay_poll s now batch_size = do
    found ← get_until s now batch_size
    s' ← delete_each s found
    ok (keys_of found, s')

  unfoldable pub delay_keys_fired :
      TimeSortedKeys valid_time o → List Value → Outcome (TimeSortedKeys valid_time o)
  unfolding delete_by_key
  delay_keys_fired s [] = ok s
  delay_keys_fired s (key ∷ keys) = do
    s' ← elim (delete_by_key valid_time o s key) [
      | ok s' ↦ ok s'
      | err e ↦ elim e [ not_found ↦ ok s | other ↦ err other ]
      | panic ↦ panic
    ]
    delay_keys_fired s' keys

  -- The watermark trigger.
  pub record WatermarkState : Type 0 where
    pub time_keys : TimeSortedKeys valid_time o
    pub watermark : o.Cell
    pub ready_to_fire : o.Cell

  -- The zero time of Go, at the start of the year 1.
  abbrev pub zero_time : Time
  zero_time = (18446744011573954816, 0)

  unfoldable pub current_watermark : WatermarkState → Outcome Time
  current_watermark s = elim (o.cell_get s.watermark) [
    | ok w ↦ as_time w
    | err e ↦ elim e [ not_found ↦ ok zero_time | other ↦ err other ]
    | panic ↦ panic
  ]

  unfoldable pub watermark_record_received : WatermarkState → Value → Time → Outcome WatermarkState
  unfolding current_watermark update
  watermark_record_received s key event_time = do
    w ← current_watermark s
    if is_before event_time w then ok s else (do
      k ← update valid_time o s.time_keys key event_time
      ok (record s { time_keys = k }))

  unfoldable pub is_something_ready_to_fire : WatermarkState → Time → Outcome Bool
  unfolding get_first
  is_something_ready_to_fire s w = do
    first ← get_first s.time_keys
    ok (elim first [ none ↦ false | some (key, t) ↦ if is_before w t then false else true ])

  unfoldable pub update_watermark : WatermarkState → Time → Outcome WatermarkState
  unfolding is_something_ready_to_fire make_time
  update_watermark s w = do
    octo_watermark ← make_time valid_time w
    c ← o.cell_set s.watermark octo_watermark
    let s' = record s { watermark = c }
    ready ← is_something_ready_to_fire s' w
    if ready
        then (do r ← o.cell_set s.ready_to_fire (bool true); ok (record s' { ready_to_fire = r }))
        else ok s'

  -- `AsBool`: false where the value is no bool.
  abbrev pub as_bool : Value → Bool
  as_bool (bool b) = b
  as_bool _ = false

  unfoldable pub is_ready : WatermarkState → Outcome Bool
  is_ready s = elim (o.cell_get s.ready_to_fire) [
    | ok b ↦ ok (as_bool b)
    | err e ↦ elim e [ not_found ↦ ok false | other ↦ err other ]
    | panic ↦ panic
  ]

  -- What `PollKeysToFire` does where it is ready. The check of the times in its loop, which panics, is
  -- one that `GetUntil` has made.
  unfoldable pub fire_until : WatermarkState → Time → ℕ → Outcome (List Value × WatermarkState)
  unfolding get_until delete_each is_something_ready_to_fire
  fire_until s w batch_size = do
    found ← get_until s.time_keys w batch_size
    k ← delete_each s.time_keys found
    let s' = record s { time_keys = k }
    ready ← is_something_ready_to_fire s' w
    if ready then ok (keys_of found, s') else (do
      r ← o.cell_set s.ready_to_fire (bool false)
      ok (keys_of found, record s' { ready_to_fire = r }))

  unfoldable pub watermark_poll : WatermarkState → ℕ → Outcome (List Value × WatermarkState)
  unfolding is_ready current_watermark fire_until
  watermark_poll s batch_size = do
    ready ← is_ready s
    if ready then (do w ← current_watermark s; fire_until s w batch_size) else ok ([], s)
