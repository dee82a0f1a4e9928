-- ===== src/Functions.antt =====
-- execution/functions: the functions of queries and the checks of their arguments.
pub mod Validators
pub mod Function
pub mod Numbers
pub mod Texts
pub mod Sequences
pub mod Strings
pub mod Operators
pub mod Table
pub mod Shapes
pub mod Crashes
pub mod Panics
pub mod Units
pub mod Safety
pub mod TupleLaws
pub mod LeastLaws
mod Tests
