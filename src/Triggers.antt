-- ===== src/Triggers.antt =====
-- execution/trigger: the triggers of GROUP BY, which say when the keys of a stream are sent on.
mod Counting
mod Tests
pub mod CountingLaws
mod TimeSortedKeys
pub mod TimeSortedKeysLaws
pub mod TimeTriggers
pub mod TimeTriggersLaws
pub mod WatermarkLaws
unfoldable pub use Counting.*
