-- ===== src/Passes.antt =====
-- passes.py: the pass, its holder, the vehicles registered to it and the visits recorded on it.
pub mod Build
mod Defs
mod Tests
unfoldable pub use Defs.*
