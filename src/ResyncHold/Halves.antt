-- ===== src/ResyncHold/Halves.antt =====
-- What the second half of a frame does to the holds that are left by the first.
use qlsm_extra.Base.{
  ℕ, ◌≤◌, ◌≡◌, true, ◌||◌, Bool-cases, Option, [], arith, leb, inl, inr, max, ◌∙◌,
}
use qlsm_extra.Base.Dict.{Dict, lookup, contains, Distinct}
use qlsm_extra.ResyncHold.{
  Hold, Client, Status, count_resyncs, note_link, relay_behind, current_from, clients_from,
}
use qlsm_extra.ResyncHold.Frame.{
  Round, watch_part, hold_part, frame_on, run_holds, start_holds, queue_of,
}
use qlsm_extra.ResyncHold.Count.{held_at, holds}
use qlsm_extra.ResyncHold.Balance.{Sound}
use qlsm_extra.ResyncHold.Covered.{one, clients_from-Distinct, current_from-Distinct}
use qlsm_extra.ResyncHold.Watching.{watch_part-Keeps, watch_part-held, linked-Sound}
use qlsm_extra.ResyncHold.Loop.{run_holds-Looped, holds_among}
use qlsm_extra.ResyncHold.Young.{young, run_holds-young, run_holds_behind}
use qlsm_extra.ResyncHold.Starts.{Started, start_holds-Started, queue_of-Waiting}

-- What the second half of a frame promises, where each hold has a client.
pub record Held (p m : ℕ) (h : Hold) (r : Round) : Type 0 where
  pub sound : Sound r.hold
  pub counted : holds r.hold.slots ≡ r.running
  pub budget : holds r.hold.slots ≤ max p (holds h.slots)
  pub behind : h.watch.behind ≡ true → holds r.hold.slots ≡ 0
  pub watch : r.hold.watch ≡ h.watch
  pub all_young : 1 ≤ m → (j : ℕ) → young r.hold.frame_no m (lookup j r.hold.slots) ≡ true

abbrev started_at : Hold → Round
started_at h = record { hold = h; running = 0; forced = [] }

hold_part-Held :
    (now m p : ℕ) (clients : Dict Client) (h : Hold)
    → Sound h
    → Distinct clients
    → ((j : ℕ) → held_at (lookup j h.slots) ≤ one (contains j clients))
    → Held p m h (hold_part now m p clients h)
unfolding hold_part
hold_part-Held now m p clients h s q o =
    let r = run_holds now m clients (started_at h) in
    let l = run_holds-Looped now m clients (started_at h) q s in
    let same = holds_among clients h.slots q s.distinct o in
    let kept = l.keeps.1 in
    let y : (j : ℕ) → young r.hold.frame_no m (lookup j r.hold.slots) ≡ true = λ j.
      ground
        (arith, l.frame_no, o j, l.others j, run_holds-young now m clients (started_at h) q s j) in
    elim (Bool-cases (h.watch.behind || leb p r.running)) [
      | inl e ↦ rw e (record {
        sound = l.keeps.0;
        counted = omega (arith, l.counted, same);
        budget = omega (arith, kept);
        behind =
            λ b. omega (arith, l.counted, same, run_holds_behind now m clients (started_at h) s b);
        watch = l.watch;
        all_young = λ f. y;
      })
      | inr e ↦
          let started : (n : ℕ)
              → 1 ≤ n
              → Started p n r (start_holds now p clients (queue_of r.hold.slots clients) r) =
            λ n f.
              start_holds-Started now p n clients (queue_of r.hold.slots clients) r l.keeps.0
                (queue_of-Waiting r.hold.slots clients q) f in
          let t = started 1 (ground arith) in
          rw e (record {
            sound = t.sound;
            counted = omega (arith, t.counted, l.counted, same);
            budget = omega (arith, t.counted, l.counted, same, kept, t.budget);
            behind = λ b. ground (arith, b, e);
            watch = t.watch ∙ l.watch;
            all_young = λ f j. ground (arith, t.frame_no, (started m f).stays_young j, y j);
          })
    ]

-- The state that the second half of a frame starts from.
abbrev pub before_holds : Status → (ℕ → Option Client) → ℕ → ℕ → Hold → Hold
before_holds status client_of now sec h =
    let (counted, forced) = count_resyncs status h in
    watch_part status client_of now sec forced (current_from status.slots [])
      (note_link status forced (relay_behind status counted))

pub frame_on-Held :
    (status : Status) (client_of : ℕ → Option Client) (m now sec p : ℕ) (h : Hold)
    → Sound h
    → Held p m (before_holds status client_of now sec h) (frame_on status client_of m now sec p h)
unfolding frame_on
frame_on-Held status client_of m now sec p h s =
    let forced = (count_resyncs status h).1 in
    let linked = note_link status forced (relay_behind status (count_resyncs status h).0) in
    let current = current_from status.slots [] in
    let l = linked-Sound status h s in
    hold_part-Held now m p (clients_from status.connected client_of current)
      (before_holds status client_of now sec h)
      (watch_part-Keeps status client_of now sec forced current linked l).0
      (clients_from-Distinct status.connected client_of current
        (current_from-Distinct status.slots [] tt))
      (watch_part-held status client_of now sec forced current linked l)

pub before_holds-holds :
    (status : Status) (client_of : ℕ → Option Client) (now sec : ℕ) (h : Hold)
    → Sound h
    → holds (before_holds status client_of now sec h).slots ≤ holds h.slots
unfolding note_link relay_behind count_resyncs
before_holds-holds status client_of now sec h s =
    let forced = (count_resyncs status h).1 in
    let linked = note_link status forced (relay_behind status (count_resyncs status h).0) in
    (watch_part-Keeps status client_of now sec forced (current_from status.slots []) linked
      (linked-Sound status h s)).1
