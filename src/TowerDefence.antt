-- ===== src/TowerDefence.antt =====
-- Tower defence: td_rules.py (tables, waves, money, pads), one method of `class Game` after another.
-- Times are milliseconds. A message is a constructor of `Reply` with the numbers that it prints.
mod Tables
mod Rules
pub mod Waves
pub mod Money
pub mod Invariant
pub mod Calls
pub mod Runs
mod Tests
unfoldable pub use Tables.*
unfoldable pub use Rules.*
