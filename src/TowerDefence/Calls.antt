-- ===== src/TowerDefence/Calls.antt =====
-- The calls that tower_defence.py makes on a `Game` of td_rules.py.
use qlsm_extra.Base.{ℕ, String}
use qlsm_extra.TowerDefence.Tables.{Creep}

pub data Call : Type 0 where
  reset : Call
  start : ℕ → Call
  tdwave : ℕ → ℕ → Call
  tick : ℕ → ℕ → Call
  killed leaked : Creep → Call
  build : ℕ → String → Call
  upgrade sell : ℕ → Call
