-- ===== src/Expression.antt =====
-- execution/relation.go and execution/logic.go: the relations between values and the formulas over
-- them. `Relation` and `Formula` declare the code, `Laws` proves what the relations promise, `Like`
-- treats the patterns of LIKE.
pub mod Like
pub mod Relation
pub mod Formula
pub mod Patterns
pub mod Laws
mod Tests
