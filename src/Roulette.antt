-- ===== src/Roulette.antt =====
-- The item roulette: item_roulette.py. What a factor of a curse comes to in whole numbers, the
-- random numbers and the players are arguments.
pub mod Table
pub mod Rules
pub mod Plan
pub mod State
pub mod Pickup
pub mod Curses
pub mod Taken
pub mod Hits
pub mod Guard
pub mod Hooked
pub mod Events
mod Tests
