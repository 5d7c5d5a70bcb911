-- ===== src/ResyncHold/Guard.antt =====
-- The state of `class demo_stream_resync_hold` stays well formed through its frame hook.
use qlsm_extra.Base.{
  ℕ, ◌+◌, ◌%◌, ◌≡◌, refl, Bool, true, false, not, ◌&&◌, ◌||◌, Bool-cases, Option, [], ◌∷◌, arith,
  leb, ◌==◌, if◌then◌else◌, is_some, inl, inr,
}
use qlsm_extra.Base.Dict.{Dict}
use qlsm_extra.ResyncHold.{Hold, Client, Slot, reset}
use qlsm_extra.ResyncHold.Intact.{
  IsValid, IntactIf, reset-IntactIf, ValidAfter, is_whole, poll-ValidAfter,
}
use qlsm_extra.ResyncHold.Laws.{reset-slots}
use qlsm_extra.ResyncHold.Config.{
  clamp_int_bounds, cvar_on, keyframe_seconds, clamp_max_frames, clamp_per_frame,
}
use qlsm_extra.ResyncHold.Plugin.{
  Plugin, Cvars, CvarRead, StatusRead, Outcome, rearm, read_cvars, partly_read, is_broken, stopped,
  act, attempt, fail, conclude, handle_frame, cmd_resynchold, max_errors, slow_poll_frames,
}

abbrev armed : Plugin → Plugin
armed p = if is_some p.broken_at then rearm p else p

module _ {whole : Bool} where
  clamped-IsValid :
      (p : Plugin) (cvars : Cvars) (on : Bool) (k : ℕ)
      → IsValid whole p
      → IsValid whole (record p {
        enabled = on;
        max_frames = clamp_max_frames cvars.max_frames;
        per_frame = clamp_per_frame cvars.per_frame;
        keyframe_sec = k;
      })
  unfolding clamp_max_frames clamp_per_frame
  clamped-IsValid p cvars on k v = record {
    intact = v.intact;
    cap = clamp_int_bounds _ 8 1 16 (omega arith) (omega arith);
    budget = clamp_int_bounds _ 2 1 8 (omega arith) (omega arith);
    errors = v.errors;
    silent = v.silent;
  }

  rearm-IsValid : (p : Plugin) → IsValid whole p → IsValid whole (rearm p)
  rearm-IsValid p v = record {
    intact = v.intact;
    cap = v.cap;
    budget = v.budget;
    errors = λ e. omega arith;
    silent = λ e. cc;
  }

  pub hold-IsValid :
      (p : Plugin) (h : Hold)
      → IsValid whole p
      → IntactIf whole h
      → (is_some p.broken_at ≡ true → h.slots ≡ [])
      → IsValid whole (record p { hold = h })
  hold-IsValid p h v i e = record {
    intact = i;
    cap = v.cap;
    budget = v.budget;
    errors = v.errors;
    silent = e;
  }

  pub reset-IsValid :
      (p : Plugin) → IsValid whole p → IsValid whole (record p { hold = reset p.hold })
  reset-IsValid p v =
      hold-IsValid p (reset p.hold) v (reset-IntactIf whole p.hold v.intact)
        (λ e. reset-slots p.hold)

  pub read_cvars-IsValid :
      (cvars : Cvars) (p : Plugin) → IsValid whole p → IsValid whole (read_cvars cvars p)
  unfolding read_cvars
  read_cvars-IsValid cvars p v =
      let q = clamped-IsValid p cvars (cvar_on cvars.on) (keyframe_seconds cvars.keyframe) v in
      elim (Bool-cases (cvar_on cvars.on && (not p.enabled && is_some p.broken_at))) [
        | inl e ↦ rw e (rearm-IsValid _ q)
        | inr e ↦ rw e q
      ]

  partly_read-IsValid :
      (n : ℕ) (cvars : Cvars) (p : Plugin) → IsValid whole p → IsValid whole (partly_read n cvars p)
  unfolding partly_read
  partly_read-IsValid n cvars p v =
      let q = clamped-IsValid p cvars p.enabled p.keyframe_sec v in
      record {
        intact = v.intact;
        cap = ground (arith, q.cap, v.cap);
        budget = ground (arith, q.budget, v.budget);
        errors = v.errors;
        silent = v.silent;
      }

  pub cmd_resynchold-IsValid :
      (cvars : CvarRead) (p : Plugin) → IsValid whole p → IsValid whole (cmd_resynchold cvars p)
  unfolding cmd_resynchold
  cmd_resynchold-IsValid (CvarRead.complete cvars) p v = read_cvars-IsValid cvars p v
  cmd_resynchold-IsValid (CvarRead.stops_after n cvars) p v = partly_read-IsValid n cvars p v

  stopped-IsValid :
      (p : Plugin) → IsValid whole p → IsValid whole (record p { hold = stopped p.hold })
  unfolding stopped
  stopped-IsValid p v = from p.hold.slots refl
    where
      from : (d : Dict Slot) → p.hold.slots ≡ d → IsValid whole (record p { hold = stopped p.hold })
      from [] e = rw (stopped, e) v
      from (x ∷ d) e = rw (stopped, e) (reset-IsValid p v)

  armed-IsValid :
      (p : Plugin)
      → IsValid whole p
      → IsValid whole (armed p) × (is_some (armed p).broken_at ≡ false)
  armed-IsValid p v = elim (Bool-cases (is_some p.broken_at)) [
    | inl e ↦ rw e (rearm-IsValid p v, refl)
    | inr e ↦ rw e (v, e)
  ]

  act-ValidAfter :
      (slow : Bool) (now : ℕ) (answer : StatusRead) (client_of : ℕ → Option Client) (p : Plugin)
      → (whole ≡ true → is_whole answer ≡ true)
      → IsValid whole p
      → ValidAfter whole (act slow now answer client_of p)
  unfolding act
  act-ValidAfter slow now answer client_of p w v =
      let a = armed-IsValid p v in
      elim (Bool-cases (not p.enabled)) [
        | inl e ↦ rw (act, e) (stopped-IsValid p v)
        | inr e ↦ elim (Bool-cases (is_broken now p.broken_at)) [
          | inl f ↦ rw (act, e, f) v
          | inr f ↦ elim (Bool-cases ((armed p).stream_on || slow)) [
            | inl g ↦
                rw (act, e, f, g) (poll-ValidAfter whole now answer client_of (armed p) w a.0 a.1)
            | inr g ↦ rw (act, e, f, g) a.0
          ]
        ]
      ]

  attempt-ValidAfter :
      (slow : Bool) (now : ℕ) (cvars : CvarRead) (answer : StatusRead)
      (client_of : ℕ → Option Client) (p : Plugin)
      → (whole ≡ true → is_whole answer ≡ true)
      → IsValid whole p
      → ValidAfter whole (attempt slow now cvars answer client_of p)
  unfolding attempt
  attempt-ValidAfter false now cvars answer client_of p w v =
      act-ValidAfter false now answer client_of p w v
  attempt-ValidAfter true now (CvarRead.complete cvars) answer client_of p w v =
      act-ValidAfter true now answer client_of (read_cvars cvars p) w (read_cvars-IsValid cvars p v)
  attempt-ValidAfter true now (CvarRead.stops_after n cvars) answer client_of p w v =
      partly_read-IsValid n cvars p v

  fail-IsValid : (now : ℕ) (p : Plugin) → IsValid whole p → IsValid whole (fail now p)
  unfolding fail
  fail-IsValid now p v = elim (Bool-cases (is_some p.broken_at)) [
    | inl e ↦ rw (fail, e) v
    | inr e ↦ elim (Bool-cases (leb max_errors (p.errors + 1))) [
      | inl f ↦
          let r = reset-IsValid p v in
          rw (fail, e, f)
            (record {
              intact = r.intact;
              cap = r.cap;
              budget = r.budget;
              errors = λ g. cc;
              silent = λ g. reset-slots p.hold;
            })
      | inr f ↦
          rw (fail, e, f)
            (record {
              intact = v.intact;
              cap = v.cap;
              budget = v.budget;
              errors = λ g. ground (arith, f);
              silent = v.silent;
            })
    ]
  ]

  conclude-IsValid :
      (slow : Bool) (now : ℕ) (o : Outcome)
      → ValidAfter whole o
      → IsValid whole (conclude slow now o)
  unfolding conclude
  conclude-IsValid true now (Outcome.went_through p) v = record {
    intact = v.intact;
    cap = v.cap;
    budget = v.budget;
    errors = λ e. omega arith;
    silent = v.silent;
  }
  conclude-IsValid false now (Outcome.went_through p) v = v
  conclude-IsValid slow now (Outcome.returned p) v = v
  conclude-IsValid slow now (Outcome.raised p) v = fail-IsValid now p v

  ticked-IsValid : (p : Plugin) (n : ℕ) → IsValid whole p → IsValid whole (record p { tick = n })
  ticked-IsValid p n v = record {
    intact = v.intact;
    cap = v.cap;
    budget = v.budget;
    errors = v.errors;
    silent = v.silent;
  }

  pub handle_frame-IsValid :
      (now : ℕ) (cvars : CvarRead) (answer : StatusRead) (client_of : ℕ → Option Client)
      (p : Plugin)
      → (whole ≡ true → is_whole answer ≡ true)
      → IsValid whole p
      → IsValid whole (handle_frame now cvars answer client_of p)
  unfolding handle_frame
  handle_frame-IsValid now cvars answer client_of p w v =
      let ticked = record p { tick = p.tick + 1 } in
      let slow = ticked.tick % slow_poll_frames == 0 in
      let t = ticked-IsValid p (p.tick + 1) v in
      elim (Bool-cases (not p.supported)) [
        | inl e ↦ rw (handle_frame, e) v
        | inr e ↦
            rw (handle_frame, e)
              (conclude-IsValid slow now (attempt slow now cvars answer client_of ticked)
                (attempt-ValidAfter slow now cvars answer client_of ticked w t))
      ]
