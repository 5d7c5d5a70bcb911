-- ===== src/HostMetrics/Keys.antt =====
-- The kinds and scopes of events, and the keys of the tracker's dicts.
use qlsm_extra.Base.{ℕ, ◌+◌, ◌*◌, ◌<◌, ◌≡◌, arith, Bool, true, false}

-- The keys of SEVERITY
pub data Kind : Type 0 where
  instance_new instance_gone core_saturated steal_high : Kind
  mem_low frames_late oom_kill disk_low : Kind

-- 'host', 'core:<n>' and 'port:<n>'
pub data Scope : Type 0 where
  host : Scope
  core port : ℕ → Scope

abbrev pub kind_no : Kind → ℕ
kind_no Kind.instance_new = 0
kind_no Kind.instance_gone = 1
kind_no Kind.core_saturated = 2
kind_no Kind.steal_high = 3
kind_no Kind.mem_low = 4
kind_no Kind.frames_late = 5
kind_no Kind.oom_kill = 6
kind_no Kind.disk_low = 7

abbrev pub scope_no : Scope → ℕ
scope_no Scope.host = 0
scope_no (Scope.core n) = 1 + 2 * n
scope_no (Scope.port n) = 2 + 2 * n

-- `(kind, scope_key)` as the number that stands for it.
abbrev pub key_of : Kind → Scope → ℕ
key_of kind scope = kind_no kind + 8 * scope_no scope

-- `kind in POINT_KINDS`
unfoldable pub is_point : Kind → Bool
is_point Kind.oom_kill = true
is_point Kind.instance_new = true
is_point Kind.instance_gone = true
is_point _ = false

-- `kind in AT_ONCE_KINDS`
unfoldable pub is_at_once : Kind → Bool
unfolding is_point
is_at_once Kind.disk_low = true
is_at_once kind = is_point kind

kind_no-lt : (kind : Kind) → kind_no kind < 8
kind_no-lt kind = ground arith

kind_no_injective : (j k : Kind) → kind_no j ≡ kind_no k → j ≡ k
kind_no_injective j k e = ground arith

scope_no_injective : (j k : Scope) → scope_no j ≡ scope_no k → j ≡ k
scope_no_injective j k e = ground arith

-- Different pairs have different numbers.
pub key_of_injective : (j k : Kind) (s t : Scope) → key_of j s ≡ key_of k t → (j ≡ k) × (s ≡ t)
key_of_injective j k s t e =
    let kinds : kind_no j ≡ kind_no k = omega (arith, e, kind_no-lt j, kind_no-lt k) in
    (kind_no_injective j k kinds, scope_no_injective s t (omega (arith, e, kinds)))
