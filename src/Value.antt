-- ===== src/Value.antt =====
-- values.go: the dynamically typed values, their types, and `Compare`. `Types` declares the data,
-- `Order` proves what `Compare` promises.
mod Types
mod Comparing
mod Equality
pub mod Order
mod Tests
unfoldable pub use Types.*
unfoldable pub use Comparing.*
pub use Equality.{value_equal, value_equal_iff}
