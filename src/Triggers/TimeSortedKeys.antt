-- ===== src/Triggers/TimeSortedKeys.antt =====
-- execution/trigger/timesortedkeys.go: the keys with a time, by time and by key.
use octosql.Base.{ℕ, Bool, Outcome, ok, err, panic, ◌>>=◌, not_found}
use octosql.Value.{Value, null, time, tuple, nil, cons}
use octosql.SortedKeys.{make_time}
use octosql.Storage.{StorageOps}

-- The key of the index by time.
abbrev pub time_key : Value → Value → Value
time_key t key = tuple (cons t (cons key nil))

-- `AsTime`, which panics where the value is no time.
abbrev pub as_time : Value → Outcome (ℕ × ℕ)
as_time (time s n) = ok (s, n)
as_time _ = panic

module _ (valid_time : ℕ → ℕ → Bool) (o : StorageOps) where
  -- The maps `byTimeAndKey` and `byKeyToTime`.
  abbrev pub TimeSortedKeys : Type 0
  TimeSortedKeys = o.Map × o.Map

  -- The first part of `Update`: the old entry of the key in the index by time goes.
  unfoldable pub forget_old_time : TimeSortedKeys → Value → Outcome o.Map
  forget_old_time (by_time, by_key) key = elim (o.map_get by_key key) [
    | ok old_time ↦ o.map_delete by_time (time_key old_time key)
    | err e ↦ elim e [ not_found ↦ ok by_time | other ↦ err other ]
    | panic ↦ panic
  ]

  unfoldable pub update : TimeSortedKeys → Value → ℕ × ℕ → Outcome TimeSortedKeys
  unfolding forget_old_time make_time
  update (by_time, by_key) key t = do
    without_old ← forget_old_time (by_time, by_key) key
    octo_time ← make_time valid_time t
    by_time' ← o.map_set without_old (time_key octo_time key) null
    by_key' ← o.map_set by_key key octo_time
    ok (by_time', by_key')

  unfoldable pub delete : TimeSortedKeys → Value → ℕ × ℕ → Outcome TimeSortedKeys
  unfolding make_time
  delete (by_time, by_key) key t = do
    octo_time ← make_time valid_time t
    by_time' ← o.map_delete by_time (time_key octo_time key)
    by_key' ← o.map_delete by_key key
    ok (by_time', by_key')

  unfoldable pub delete_by_key : TimeSortedKeys → Value → Outcome TimeSortedKeys
  unfolding delete
  delete_by_key (by_time, by_key) key = do
    t ← o.map_get by_key key
    t' ← as_time t
    delete (by_time, by_key) key t'
