-- ===== src/States.antt =====
-- states.py: state transitions, and the one state nobody types.
pub mod Graph
pub mod History
mod Defs
mod Tests
unfoldable pub use Defs.*
