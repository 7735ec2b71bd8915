-- ===== src/Enrolment.antt =====
-- enrolment.py: the plate in its one normal form, when a lane's read passes for a plate, the
-- credential and its derived state, and where a garage enrols.
mod Defs
mod Tests
pub mod Edits
pub mod Plates
pub mod Similar
pub mod Credentials
unfoldable pub use Defs.*
