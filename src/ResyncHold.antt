-- ===== src/ResyncHold.antt =====
-- The hold of full snapshots after a resync: demo_stream_resync_hold.py. Times are milliseconds.
mod Slots
mod State
mod Phases
mod Asking
pub mod Frame
pub mod Count
pub mod Balance
pub mod Asks
pub mod Covered
pub mod Watching
pub mod Running
pub mod Loop
pub mod Young
pub mod Starts
pub mod Halves
pub mod Laws
pub mod Config
pub mod Plugin
pub mod Intact
pub mod Guard
pub mod Events
mod Tests
unfoldable pub use Slots.*
unfoldable pub use State.*
unfoldable pub use Phases.*
unfoldable pub use Asking.*
