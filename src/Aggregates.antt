-- ===== src/Aggregates.antt =====
-- execution/aggregates: the aggregates of GROUP BY. Each keeps its state in the storage, and takes
-- values in and out again (`AddValue`, `RetractValue`).
mod Counting
mod Summing
mod Keys
mod Extremes
pub mod ExtremeLaws
pub mod CountLaws
pub mod DistinctLaws
pub mod SumLaws
pub mod KeyLaws
mod Tests
unfoldable pub use Counting.*
unfoldable pub use Summing.*
unfoldable pub use Keys.*
unfoldable pub use Extremes.*
