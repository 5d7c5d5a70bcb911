-- ===== src/HostMetrics.antt =====
-- The event tracker of the host metrics: addons/host-metrics/assets/hm_events.py, with the rows of
-- hm_store.py's event table. Times are whole seconds; a percentage is a whole number in the unit of
-- its threshold. A row keeps its time, key and end, and no message.
mod Keys
mod Observe
pub mod Evaluate
pub mod Window
pub mod Rows
pub mod Table
mod Tests
unfoldable pub use Keys.*
unfoldable pub use Observe.*
