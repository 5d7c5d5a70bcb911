-- ===== src/HostMetrics/Tests.antt =====
-- Runs of the event tracker.
use qlsm_extra.Base.{some, ℕ, Bool, ◌≡◌, refl, true, false, none, List, [], ◌∷◌, arith}
use qlsm_extra.Base.Dict.{contains}
use qlsm_extra.HostMetrics.{Kind, Scope, key_of, is_at_once, defaults}
use qlsm_extra.HostMetrics.{Row}
use qlsm_extra.HostMetrics.Evaluate.{Sample}
use qlsm_extra.HostMetrics.Window.{
  observe_all, active_since, last_time, lasted, fresh, observe_all-opened,
}

-- A core that is busy for 70 s with a break after 20.
abbrev busy_core : List (ℕ × Bool)
busy_core = (100, true) ∷ (120, false) ∷ (125, true) ∷ (150, true) ∷ (190, true) ∷ []

observe_all-opened_example :
    contains
      (key_of Kind.core_saturated (Scope.core 3))
      (observe_all defaults Kind.core_saturated (Scope.core 3) busy_core fresh).opened
    ≡ lasted 60 (last_time 0 busy_core) (active_since none busy_core)
unfolding is_at_once
observe_all-opened_example =
    observe_all-opened defaults Kind.core_saturated (Scope.core 3) busy_core refl
      (omega arith, (omega arith, (omega arith, (omega arith, (omega arith, tt)))))

-- A host whose disk is full.
abbrev full_disk : Sample
full_disk = record {
  cores = [];
  mem_total = some 1000;
  mem_avail = some 500;
  disk_used = some 95;
  disk_total = some 100;
  oom_delta = some 1;
  host_oom_delta = none;
  insts = record { port = 27960; frames = none; late = none; max_ms = none } ∷ [];
}

abbrev disk_id : ℕ
disk_id = 1

abbrev disk_row : Row
disk_row = record { ts = 100; key = key_of Kind.disk_low Scope.host; closed = none }

abbrev two_samples : List (ℕ × Sample)
two_samples = (100, full_disk) ∷ (110, full_disk) ∷ []
