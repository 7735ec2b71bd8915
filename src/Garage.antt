-- ===== src/Garage.antt =====
-- garage.py: the one text validator, and a garage with its clock and what it has stated.
pub mod Laws
mod Defs
mod Tests
unfoldable pub use Defs.*
