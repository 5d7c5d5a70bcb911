-- ===== src/Telemetry.antt =====
-- The live telemetry path: the helpers of telemetry_unified_sched.py, the item and session feeds of
-- stream_telemetry_unified.py that use them, and the relay (addons/telemetry-relay/assets/relay.py)
-- that they post to. Times are milliseconds; a queued row is the number that stands for its identity.
pub mod Feed
pub mod Sched
pub mod Status
pub mod Items
pub mod Session
mod Tests
pub mod Relay
