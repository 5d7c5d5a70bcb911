-- ===== src/ResyncHold/Phases.antt =====
-- The parts of `frame` of `class ResyncHold`, in the order of the source. Each loop is a function for
-- one round and a fold.
use qlsm_extra.Base.{
  ℕ, ◌+◌, ◌-◌, Bool, true, false, not, ◌&&◌, Option, none, some, List, [], ◌∷◌, ◌==◌, if◌then◌else◌,
}
use qlsm_extra.Base.Dict.{Dict, lookup, insert}
use qlsm_extra.ResyncHold.Slots.{Slot, SlotStatus, Status, Client, Why, new_slot, ask, has_target}
use qlsm_extra.ResyncHold.State.{Hold, set_slot, cancel, drop_slot, end_slot, end_counts}

-- `forced_by_engine`, with the new `_resyncs`.
unfoldable pub count_resyncs : Status → Hold → Hold × ℕ
count_resyncs status h = (
  record h { watch = record h.watch { resyncs = some status.resyncs } },
  elim h.watch.resyncs [ none ↦ 0 | some before ↦ status.resyncs - before ],
)

abbrev same_link : Option Bool → Bool → Bool
same_link none now = false
same_link (some true) now = now
same_link (some false) now = not now

-- `_connected` and `_down_resyncs`.
unfoldable pub note_link : Status → ℕ → Hold → Hold
note_link status forced h =
    let w = h.watch in
    let down = if same_link w.connected status.connected then w.down_resyncs else 0 in
    record h {
      watch = record w {
        connected = some status.connected;
        down_resyncs = if status.connected then down else down + forced;
      };
    }

-- `current`: the generation and the flag of the active slots.
unfoldable pub current_from : List SlotStatus → Dict (ℕ × Bool) → Dict (ℕ × Bool)
current_from [] d = d
current_from (s ∷ slots) d =
    current_from slots (if s.active then insert s.slot (s.gen, s.resyncing) d else d)

-- Whether the slot closed or has a new gamestate.
abbrev pub stale : Option (ℕ × Bool) → Option Slot → Bool
stale now none = false
stale none (some st) = true
stale (some (gen, resyncing)) (some st) = not (gen == st.gen)

-- One round of the loop over the slots, and the loop.
unfoldable pub check_slot : Dict (ℕ × Bool) → ℕ → Hold → Hold
check_slot current slot h =
    if stale (lookup slot current) (lookup slot h.slots) then drop_slot slot h else h

unfoldable pub drop_stale : Dict (ℕ × Bool) → List ℕ → Hold → Hold
drop_stale current [] h = h
drop_stale current (slot ∷ slots) h = drop_stale current slots (check_slot current slot h)

abbrev pub flag_off : Option (ℕ × Bool) → Bool
flag_off none = false
flag_off (some (gen, resyncing)) = not resyncing

-- `cleared`
unfoldable pub cleared_of : Dict (ℕ × Bool) → Dict Slot → List ℕ
cleared_of current [] = []
cleared_of current ((slot, st) ∷ slots) =
    let rest = cleared_of current slots in
    if st.resyncing && flag_off (lookup slot current) then slot ∷ rest else rest

-- `st` of the loop over `current`: the slot, or a new one.
unfoldable pub seen_slot : ℕ → ℕ → ℕ → Hold → Slot
seen_slot now slot gen h = elim (lookup slot h.slots) [
  | some st ↦ st
  | none ↦
      if h.watch.fresh
      then ask h.frame_no Why.first_sight (new_slot gen none)
      else new_slot gen (some now)
]

-- The client of a slot, if it is in the game and the link is up.
abbrev pub usable : Bool → Option Client → Option Client
usable connected none = none
usable connected (some client) = if client.is_active && connected then some client else none

abbrev pub sent_to : Option Client → ℕ → ℕ
sent_to none start = 0
sent_to (some client) start = client.outgoing_sequence - start

-- A slot without a usable client: its hold ends, and it waits no longer.
unfoldable pub lose_client : ℕ → Option Client → Slot → Hold → Hold
lose_client slot client st h =
    if has_target st.target
    then record h {
      slots = insert slot (record (end_slot h.frame_no st) { want = false }) h.slots;
      counts = end_counts slot (sent_to client st.start_seq) (cancel h.counts);
    }
    else set_slot slot (record st { want = false }) h

unfoldable pub keep_client : ℕ → ℕ → Client → Slot → Hold → Hold
keep_client now slot client st h =
    set_slot slot
      (if not (has_target st.target) && client.asks_full
        then record st { last_full = some now }
        else st)
      h

-- One round of the loop over `current`, and the loop. `client_of` is the engine's.
unfoldable pub visit : Bool → ℕ → ℕ → ℕ → Option Client → Hold → Hold
visit connected now slot gen client h =
    let st = seen_slot now slot gen h in
    elim (usable connected client) [
      | none ↦ lose_client slot client st h
      | some c ↦ keep_client now slot c st h
    ]

unfoldable pub visit_all : Bool → ℕ → (ℕ → Option Client) → Dict (ℕ × Bool) → Hold → Hold
visit_all connected now client_of [] h = h
visit_all connected now client_of ((slot, (gen, resyncing)) ∷ current) h =
    visit_all connected now client_of current (visit connected now slot gen (client_of slot) h)

-- `clients`
abbrev pub add_client : ℕ → Option Client → Dict Client → Dict Client
add_client slot none rest = rest
add_client slot (some c) rest = (slot, c) ∷ rest

unfoldable pub clients_from : Bool → (ℕ → Option Client) → Dict (ℕ × Bool) → Dict Client
clients_from connected client_of [] = []
clients_from connected client_of ((slot, _) ∷ current) =
    let rest = clients_from connected client_of current in
    add_client slot (usable connected (client_of slot)) rest
