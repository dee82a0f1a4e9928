-- ===== src/Storage.antt =====
-- storage/value_state.go and storage/map.go as their clients see them: the operations of a value
-- state and of a map, each under its own prefix of a transaction, and the laws of a store that works.
pub mod Transactions
pub mod Cells
pub mod Deque
pub mod Maps
pub mod MapLaws
pub mod Memory
mod Tests
use octosql.Base.{
  List, Bool, ◌≡◌, ◌↔◌, Option, none, some, Outcome, ok, err, panic, not_found, true, if◌then◌else◌,
}
use octosql.Value.{Value, int, value_equal}

-- `ValueState` and `Map` over a transaction of the storage. `get` fails with `not_found` where there
-- is nothing, and every operation with the storage's own errors.
pub record StorageOps : Type 1 where
  pub Cell : Type 0
  pub cell_get : Cell → Outcome Value
  pub cell_set : Cell → Value → Outcome Cell
  pub cell_clear : Cell → Outcome Cell
  pub Map : Type 0
  pub map_get : Map → Value → Outcome Value
  pub map_set : Map → Value → Value → Outcome Map
  pub map_delete : Map → Value → Outcome Map

-- The iterators of maps: what the calls of `Next` yield one after the other, each a key and its value,
-- before the end; with `true` for the option `WithReverse`.
pub record IteratorOps (o : StorageOps) : Type 0 where
  pub map_iterate : o.Map → Bool → List (Outcome (Value × Value))

abbrev pub found : Option Value → Outcome Value
found none = err not_found
found (some v) = ok v

-- A store without failures: what is read is what was written last. Keys are told apart by their
-- values, as their encodings are.
pub record StorageLaws (o : StorageOps) : Type 1 where
  pub content : o.Cell → Option Value
  pub write : o.Cell → Option Value → o.Cell
  pub cell_get_lem : (c : o.Cell) → o.cell_get c ≡ found (content c)
  pub cell_set_lem : (c : o.Cell) (v : Value) → o.cell_set c v ≡ ok (write c (some v))
  pub cell_clear_lem : (c : o.Cell) → o.cell_clear c ≡ ok (write c none)
  pub content-write : (c : o.Cell) (v : Option Value) → content (write c v) ≡ v
  pub lookup : o.Map → Value → Option Value
  pub put : o.Map → Value → Option Value → o.Map
  pub map_get_lem : (m : o.Map) (k : Value) → o.map_get m k ≡ found (lookup m k)
  pub map_set_lem : (m : o.Map) (k v : Value) → o.map_set m k v ≡ ok (put m k (some v))
  pub map_delete_lem : (m : o.Map) (k : Value) → o.map_delete m k ≡ ok (put m k none)
  pub lookup-put :
      (m : o.Map) (k : Value) (v : Option Value) (j : Value)
      → lookup (put m k v) j ≡ (if value_equal k j then v else lookup m j)

-- What every client does with a counter that is not there: it counts from zero.
abbrev pub or_zero : Outcome Value → Outcome Value
or_zero (ok v) = ok v
or_zero (err not_found) = ok (int 0)
or_zero (err e) = err e
or_zero panic = panic
