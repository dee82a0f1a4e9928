-- ===== src/Storage/Maps.antt =====
-- storage/value_state.go and storage/map.go over a transaction of the storage.
use octosql.Base.{[], Outcome, ◌>>=◌}
use octosql.Value.{Value}
use octosql.SortedKeys.{monotonic_marshal}
use octosql.Storage.Transactions.{Transactions}

module _ (t : Transactions) where
  -- `ValueState`: the value is kept under the empty key.
  unfoldable pub state_set : t.Transaction → Value → Outcome t.Transaction
  state_set tx value = do byte_value ← t.proto_marshal value; t.tx_set tx [] byte_value

  unfoldable pub state_get : t.Transaction → Outcome Value
  state_get tx = do bytes ← t.tx_get tx []; t.proto_unmarshal bytes

  unfoldable pub state_clear : t.Transaction → Outcome t.Transaction
  state_clear tx = t.tx_delete tx []

  unfoldable pub map_set : t.Transaction → Value → Value → Outcome t.Transaction
  map_set tx key value = do
    byte_key ← monotonic_marshal key
    byte_value ← t.proto_marshal value
    t.tx_set tx byte_key byte_value

  unfoldable pub map_get : t.Transaction → Value → Outcome Value
  map_get tx key = do
    byte_key ← monotonic_marshal key
    bytes ← t.tx_get tx byte_key
    t.proto_unmarshal bytes

  unfoldable pub map_delete : t.Transaction → Value → Outcome t.Transaction
  map_delete tx key = do bytes ← monotonic_marshal key; t.tx_delete tx bytes
