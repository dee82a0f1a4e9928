-- ===== src/Storage/Transactions.antt =====
-- The interface `StateTransaction` of storage/transaction.go, and protobuf's encoding of values.
use octosql.Base.{
  Bool, List, ◌≡◌, Option, none, some, Bytes, bytes_equal, Outcome, ok, err, not_found,
  if◌then◌else◌,
}
use octosql.Value.{Value}

-- `StateTransaction`, under the prefix of its holder, and protobuf's encoding of values.
pub record Transactions : Type 1 where
  pub Transaction : Type 0
  pub tx_get : Transaction → Bytes → Outcome Bytes
  pub tx_set : Transaction → Bytes → Bytes → Outcome Transaction
  pub tx_delete : Transaction → Bytes → Outcome Transaction
  -- What an iterator passes over under a further prefix, backwards or not: the keys without the
  -- prefix of the holder, and the outcome of reading each value.
  pub tx_entries : Transaction → Bool → Bytes → List (Bytes × Outcome Bytes)
  pub proto_marshal : Value → Outcome Bytes
  pub proto_unmarshal : Bytes → Outcome Value

-- What a transaction reads after a write that succeeded, and that protobuf reads what it wrote.
pub record TransactionLaws (t : Transactions) : Type 1 where
  pub tx_get-tx_set :
      (s : t.Transaction) (key value : Bytes) {s' : t.Transaction} (other : Bytes)
      → t.tx_set s key value ≡ ok s'
      → t.tx_get s' other ≡ (if bytes_equal key other then ok value else t.tx_get s other)
  pub tx_get-tx_delete :
      (s : t.Transaction) (key : Bytes) {s' : t.Transaction} (other : Bytes)
      → t.tx_delete s key ≡ ok s'
      → t.tx_get s' other ≡ (if bytes_equal key other then err not_found else t.tx_get s other)
  pub proto_unmarshal-proto_marshal :
      (v : Value) {bytes : Bytes} → t.proto_marshal v ≡ ok bytes → t.proto_unmarshal bytes ≡ ok v

abbrev pub stored : Option Bytes → Outcome Bytes
stored none = err not_found
stored (some b) = ok b

-- A store without failures: its contents are a function of the keys, and protobuf encodes the values
-- that are `Encodable`.
pub record StoreLaws (t : Transactions) : Type 1 where
  pub content : t.Transaction → Bytes → Option Bytes
  pub write : t.Transaction → Bytes → Option Bytes → t.Transaction
  pub tx_get_lem : (s : t.Transaction) (key : Bytes) → t.tx_get s key ≡ stored (content s key)
  pub tx_set_lem :
      (s : t.Transaction) (key value : Bytes) → t.tx_set s key value ≡ ok (write s key (some value))
  pub tx_delete_lem : (s : t.Transaction) (key : Bytes) → t.tx_delete s key ≡ ok (write s key none)
  pub content-write :
      (s : t.Transaction) (key : Bytes) (value : Option Bytes) (other : Bytes)
      → content (write s key value) other
        ≡ (if bytes_equal key other then value else content s other)
  pub Encodable : Value → Type 0
  pub encoded : Value → Bytes
  pub proto_marshal_lem : (v : Value) → Encodable v → t.proto_marshal v ≡ ok (encoded v)
  pub proto_unmarshal_lem : (v : Value) → Encodable v → t.proto_unmarshal (encoded v) ≡ ok v
