-- ===== src/HostMetrics/Evaluate.antt =====
-- `evaluate` of `class EventTracker`.
use qlsm_extra.Base.{
  ℕ, ◌*◌, Bool, true, false, not, ◌&&◌, ◌||◌, Option, none, some, List, [], ◌∷◌, ltb, ◌==◌,
  if◌then◌else◌,
}
use qlsm_extra.Base.Int.{ℤ, pos, negsuc}
use qlsm_extra.HostMetrics.{Kind, Scope, Limits, Tracker, observe}

-- The core of a row is -1 for the whole host.
pub record CoreSample : Type 0 where
  pub core : Option ℤ
  pub busy : Option ℕ
  pub steal : Option ℕ

pub record InstSample : Type 0 where
  pub port : ℕ
  pub frames : Option ℕ
  pub late : Option ℕ
  pub max_ms : Option ℕ

pub record Sample : Type 0 where
  pub cores : List CoreSample
  pub mem_total : Option ℕ
  pub mem_avail : Option ℕ
  pub disk_used : Option ℕ
  pub disk_total : Option ℕ
  pub oom_delta : Option ℕ
  pub host_oom_delta : Option ℕ
  pub insts : List InstSample

abbrev above : ℕ → Option ℕ → Bool
above limit none = false
above limit (some n) = ltb limit n

unfoldable pub observe_core : Limits → ℕ → CoreSample → Tracker → Tracker
observe_core th ts c s = elim c.core [
  | none ↦ s
  | some (pos n) ↦
      observe th ts Kind.core_saturated (Scope.core n) (above th.core_saturated_pct c.busy) s
  | some (negsuc n) ↦
      if n == 0
      then observe th ts Kind.steal_high Scope.host (above th.steal_event_pct c.steal) s
      else s
]

unfoldable pub observe_cores : Limits → ℕ → List CoreSample → Tracker → Tracker
observe_cores th ts [] s = s
observe_cores th ts (c ∷ cores) s = observe_cores th ts cores (observe_core th ts c s)

-- `part * 100.0 / whole` below and above a limit; false without a whole.
unfoldable pub pct_below : Option ℕ → Option ℕ → ℕ → Bool
pct_below none whole limit = false
pct_below (some part) none limit = false
pct_below (some part) (some whole) limit = not (whole == 0) && ltb (part * 100) (limit * whole)

unfoldable pub pct_above : Option ℕ → Option ℕ → ℕ → Bool
pct_above none whole limit = false
pct_above (some part) none limit = false
pct_above (some part) (some whole) limit = not (whole == 0) && ltb (limit * whole) (part * 100)

abbrev or_zero : Option ℕ → ℕ
or_zero none = 0
or_zero (some n) = n

unfoldable pub ooms : Sample → ℕ
ooms x = elim x.oom_delta [ none ↦ or_zero x.host_oom_delta | some n ↦ n ]

unfoldable pub is_late : Limits → ℕ → InstSample → Bool
is_late th frames i =
    not (frames == 0)
    && (ltb (th.frames_late_pct * frames) (or_zero i.late * 100) || above th.frame_gap_ms i.max_ms)

unfoldable pub observe_inst : Limits → ℕ → InstSample → Tracker → Tracker
observe_inst th ts i s = elim i.frames [
  | none ↦ s
  | some frames ↦ observe th ts Kind.frames_late (Scope.port i.port) (is_late th frames i) s
]

unfoldable pub observe_insts : Limits → ℕ → List InstSample → Tracker → Tracker
observe_insts th ts [] s = s
observe_insts th ts (i ∷ insts) s = observe_insts th ts insts (observe_inst th ts i s)

abbrev pub has_port : ℕ → List ℕ → Bool
has_port p [] = false
has_port p (q ∷ ports) = if p == q then true else has_port p ports

-- A set of ports in ascending order without doubles.
unfoldable pub add_port : ℕ → List ℕ → List ℕ
add_port p [] = p ∷ []
add_port p (q ∷ ports) =
    if p == q then q ∷ ports else if ltb p q then p ∷ q ∷ ports else q ∷ add_port p ports

unfoldable pub ports_of : List InstSample → List ℕ
ports_of [] = []
ports_of (i ∷ insts) = add_port i.port (ports_of insts)

-- `sorted(ports - old)` and what is done with each.
unfoldable pub appeared : Limits → ℕ → List ℕ → List ℕ → Tracker → Tracker
appeared th ts old [] s = s
appeared th ts old (p ∷ ports) s =
    appeared th ts old ports
      (if has_port p old then s else observe th ts Kind.instance_new (Scope.port p) true s)

-- `sorted(old - ports)`, the same.
unfoldable pub gone : Limits → ℕ → List ℕ → List ℕ → Tracker → Tracker
gone th ts new [] s = s
gone th ts new (p ∷ ports) s = gone th ts new ports (
    if has_port p new
    then s
    else observe th ts Kind.frames_late (Scope.port p) false
        (observe th ts Kind.instance_gone (Scope.port p) true s))

unfoldable pub observe_ports : Limits → ℕ → List ℕ → Tracker → Tracker
observe_ports th ts ports s = elim s.ports [
  | none ↦ record s { ports = some ports }
  | some old ↦ record (gone th ts ports old (appeared th ts old ports s)) { ports = some ports }
]

unfoldable pub observe_host : Limits → ℕ → Sample → Tracker → Tracker
observe_host th ts x s = observe th ts Kind.oom_kill Scope.host (ltb 0 (ooms x)) (
    observe th ts Kind.disk_low Scope.host (pct_above x.disk_used x.disk_total th.disk_low_pct)
      (observe th ts Kind.mem_low Scope.host (pct_below x.mem_avail x.mem_total th.mem_low_pct) s))

-- `evaluate`
unfoldable pub evaluate : Limits → ℕ → Sample → Tracker → Tracker
evaluate th ts x s =
    observe_ports th ts (ports_of x.insts)
      (observe_insts th ts x.insts (observe_host th ts x (observe_cores th ts x.cores s)))
