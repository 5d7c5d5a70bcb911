-- ===== src/ResyncHold/Watching.antt =====
-- `watch_part` of `frame`, all of it.
use qlsm_extra.Base.{
  ℕ, ◌-◌, ◌≤◌, Bool, false, not, ◌&&◌, Bool-cases, Option, List, arith, ltb, inl, inr, length, take,
}
use qlsm_extra.Base.Dict.{Dict, lookup, contains, keys}
use qlsm_extra.ResyncHold.{
  Hold, Client, Status, count_resyncs, note_link, relay_behind, drop_stale, cleared_of, visit_all,
  clients_from, clear_flags, candidates_of, sort_by_age, note_flags, forget_waits,
}
use qlsm_extra.ResyncHold.Frame.{ask_unexplained, ask_part, watch_part}
use qlsm_extra.ResyncHold.Count.{held_at, Keeps, Keeps-trans, counts-IsSound}
use qlsm_extra.ResyncHold.Balance.{Sound, Keeps-refl, drop_stale-Keeps, visit_all-Keeps}
use qlsm_extra.ResyncHold.Asks.{
  clear_flags-Keeps, ask_keyframes-Keeps, note_flags-Keeps, forget_waits-Keeps,
}
use qlsm_extra.ResyncHold.Covered.{one, contains-clients_from, drop_stale-active, visit_all-held}

ask_unexplained-Keeps :
    (status : Status) (now sec n : ℕ) (current : Dict (ℕ × Bool)) (clients : Dict Client)
    (cleared : List ℕ) (h : Hold)
    → Sound h
    → Keeps h (ask_unexplained status now sec n current clients cleared h)
unfolding ask_unexplained
ask_unexplained-Keeps status now sec n current clients cleared h s =
    elim (Bool-cases (ltb 0 n && (status.connected && not h.watch.behind))) [
      | inl e ↦
          rw (ask_unexplained, e)
            (ask_keyframes-Keeps now sec
              (take n (sort_by_age h.slots (candidates_of current cleared h.slots clients))) h s)
      | inr e ↦ rw (ask_unexplained, e) (Keeps-refl h s)
    ]

ask_part-Keeps :
    (status : Status) (now sec n : ℕ) (current : Dict (ℕ × Bool)) (clients : Dict Client)
    (cleared : List ℕ) (h : Hold)
    → Sound h
    → Keeps h (ask_part status now sec n current clients cleared h)
unfolding ask_part
ask_part-Keeps status now sec n current clients cleared h s =
    let settled = record h { watch = record h.watch { fresh = false } } in
    let flagged = clear_flags now clients cleared settled in
    let k = clear_flags-Keeps now clients cleared settled s in
    let asked =
      ask_unexplained status now sec (n - length cleared) current clients cleared flagged in
    let l =
      ask_unexplained-Keeps status now sec (n - length cleared) current clients cleared flagged
        k.0 in
    let noted = note_flags current asked in
    let m = note_flags-Keeps current asked l.0 in
    Keeps-trans h flagged (forget_waits noted) k (
      Keeps-trans flagged asked (forget_waits noted) l
        (Keeps-trans asked noted (forget_waits noted) m (forget_waits-Keeps noted m.0)))

pub watch_part-Keeps :
    (status : Status) (client_of : ℕ → Option Client) (now sec n : ℕ) (current : Dict (ℕ × Bool))
    (h : Hold)
    → Sound h
    → Keeps h (watch_part status client_of now sec n current h)
unfolding watch_part
watch_part-Keeps status client_of now sec n current h s =
    let kept = drop_stale current (keys h.slots) h in
    let k = drop_stale-Keeps current (keys h.slots) h s in
    let visited = visit_all status.connected now client_of current kept in
    let l = visit_all-Keeps status.connected now client_of current kept k.0 in
    let clients = clients_from status.connected client_of current in
    Keeps-trans h kept (watch_part status client_of now sec n current h) k (
      Keeps-trans kept visited (watch_part status client_of now sec n current h) l (
        ask_part-Keeps status now sec n current clients (cleared_of current kept.slots) visited
          l.0))

-- A hold that is left then belongs to a slot with a client.
pub watch_part-held :
    (status : Status) (client_of : ℕ → Option Client) (now sec n : ℕ) (current : Dict (ℕ × Bool))
    (h : Hold)
    → Sound h
    → (j : ℕ)
    → held_at (lookup j (watch_part status client_of now sec n current h).slots)
      ≤ one (contains j (clients_from status.connected client_of current))
unfolding watch_part
watch_part-held status client_of now sec n current h s j =
    let kept = drop_stale current (keys h.slots) h in
    let k = drop_stale-Keeps current (keys h.slots) h s in
    let visited = visit_all status.connected now client_of current kept in
    let l = visit_all-Keeps status.connected now client_of current kept k.0 in
    let clients = clients_from status.connected client_of current in
    ground (
      arith,
      (ask_part-Keeps status now sec n current clients (cleared_of current kept.slots) visited
            l.0).2
          j,
      visit_all-held status.connected now client_of current j kept,
      drop_stale-active current j h s,
      contains-clients_from status.connected client_of current j,
    )

-- The state that `watch_part` starts from.
pub linked-Sound :
    (status : Status) (h : Hold)
    → Sound h
    → Sound (
        note_link status
          (count_resyncs status h).1
          (relay_behind status (count_resyncs status h).0))
unfolding note_link count_resyncs relay_behind
linked-Sound status h s =
    counts-IsSound h.counts
      (note_link status (count_resyncs status h).1
        (relay_behind status (count_resyncs status h).0)).counts
      h.slots (ground arith) (ground arith) s
