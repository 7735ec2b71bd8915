-- ===== src/Terms.antt =====
-- terms.py: the terms of a pass, and the validator that refuses a contradiction at creation.
-- A set (`frozenset`) is a list whose order and repetitions nothing reads.
pub mod Spec
pub mod Days
pub mod Check
pub mod Describe
unfoldable pub use Defs.*
mod Defs
mod Tests
