-- ===== src/GunGame.antt =====
-- Gun Game: gungame.py, its pure decisions and the plugin's handlers. A player is the number that
-- stands for its key in `_states`; a weapon is its place in WEAPON_FIELDS.
mod Parse
mod Steps
pub mod Plugin
pub mod Match
pub mod Progress
pub mod Leader
pub mod Invariant
pub mod Handlers
pub mod Hooks
pub mod Loadout
pub mod Lifecycle
mod Tests
unfoldable pub use Parse.*
unfoldable pub use Steps.*
