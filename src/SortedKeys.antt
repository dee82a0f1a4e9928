-- ===== src/SortedKeys.antt =====
-- sorted_keys.go: the monotonic byte encoding of values, under which the storage sorts its keys.
mod Words
mod Encode
mod Decode
mod Ranges
mod Scalars
mod Objects
pub mod Reading
mod Induct
pub mod RoundTrip
pub mod Fuel
pub mod Order
mod Tests
unfoldable pub use Words.*
unfoldable pub use Encode.*
unfoldable pub use Decode.*
