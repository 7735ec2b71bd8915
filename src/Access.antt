-- ===== src/Access.antt =====
-- access.py: the access answer, in the order of the checks that is its contract.
mod Defs
mod Select
mod Visits
mod Evaluate
mod Engine
pub mod Built
pub mod Counts
pub mod Shape
pub mod Found
pub mod Total
pub mod Answered
pub mod Entitled
pub mod Entitling
pub mod Covered
pub mod Named
pub mod Chosen
pub mod Justified
pub mod Admitted
pub mod LetOut
mod Tests
unfoldable pub use Defs.*
unfoldable pub use Select.*
unfoldable pub use Visits.*
unfoldable pub use Evaluate.*
unfoldable pub use Engine.*
