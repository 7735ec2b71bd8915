-- ===== src/Store.antt =====
-- store/records.py: one tenant's rows, and the calls that read and write them.
mod Rows
mod Example
mod Tests
mod Movements
mod Revocation
mod Creation
mod Clocks
mod Replaced
mod Checkout
mod Load
mod Register
mod Write
mod Ledger
mod Change
mod Garages
mod Stay
mod Create
mod EndOne
mod OfCar
pub mod OneCar
pub mod Writing
pub mod Sound
pub mod Holders
pub mod Judged
pub mod Clearing
pub mod Placed
pub mod Planned
pub mod Registered
pub mod Visits
pub mod Closing
pub mod Exits
pub mod Retimed
pub mod Repairs
pub mod StayEnds
pub mod Created
pub mod CreatedLoads
pub mod EndRead
pub mod OwnerEnds
pub mod EndWrites
pub mod ExitOnly
pub mod CarReads
pub mod CarRegistrations
pub mod Ending
pub mod Revoked
unfoldable pub use Rows.*
unfoldable pub use Load.*
unfoldable pub use Register.*
unfoldable pub use Write.*
unfoldable pub use Ledger.*
unfoldable pub use Change.*
unfoldable pub use Garages.*
unfoldable pub use Stay.*
unfoldable pub use Create.*
unfoldable pub use EndOne.*
unfoldable pub use OfCar.*
