-- ===== src/Execution.antt =====
-- execution: records, grouping, distinct records and ordering, and the stream of a range.
pub mod Records
pub mod GroupBy
pub mod Distinct
pub mod Range
pub mod RangeLaws
pub mod OrderBy
pub mod StreamJoin
mod Tests
