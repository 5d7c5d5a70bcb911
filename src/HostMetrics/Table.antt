-- ===== src/HostMetrics/Table.antt =====
-- What `observe` and `evaluate` do to the event table.
use qlsm_extra.Base.{ℕ, List, [], ◌∷◌}
use qlsm_extra.Base.Dict.{Dict}
use qlsm_extra.HostMetrics.{Limits, Tracker}
use qlsm_extra.HostMetrics.Evaluate.{Sample, evaluate}

-- The samples of a run, each with its time.
unfoldable pub evaluate_all : Limits → List (ℕ × Sample) → Tracker → Tracker
evaluate_all th [] s = s
evaluate_all th ((ts, x) ∷ samples) s = evaluate_all th samples (evaluate th ts x s)
