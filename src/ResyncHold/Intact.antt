-- ===== src/ResyncHold/Intact.antt =====
-- What the frame hook of `class demo_stream_resync_hold` keeps, also when `hold.frame` breaks off.
use qlsm_extra.Base.{ℕ, ◌≤◌, ◌<◌, ◌≡◌, refl, Bool, true, false, Option, some, [], arith, is_some}
use qlsm_extra.ResyncHold.{Hold, Client, Status, reset, drop_slot}
use qlsm_extra.ResyncHold.Frame.{frame}
use qlsm_extra.ResyncHold.Count.{holds}
use qlsm_extra.ResyncHold.Balance.{Sound, reset-Keeps, drop_slot-Keeps}
use qlsm_extra.ResyncHold.Laws.{frame-IsSound, frame-holds}
use qlsm_extra.ResyncHold.Plugin.{Plugin, Outcome, StatusRead, poll, max_errors}

-- The hold's counts balance and at most eight holds run, where the flag says that no frame of the
-- hold has broken off.
abbrev pub IntactIf : Bool → Hold → Type 0
IntactIf true h = Sound h × (holds h.slots ≤ 8)
IntactIf false h = Unit

-- What holds between two events.
pub record IsValid (whole : Bool) (p : Plugin) : Type 0 where
  pub intact : IntactIf whole p.hold
  pub cap : (1 ≤ p.max_frames) × (p.max_frames ≤ 16)
  pub budget : (1 ≤ p.per_frame) × (p.per_frame ≤ 8)
  pub errors : is_some p.broken_at ≡ false → p.errors < max_errors
  pub silent : is_some p.broken_at ≡ true → p.hold.slots ≡ []

pub reset-IntactIf : (whole : Bool) (h : Hold) → IntactIf whole h → IntactIf whole (reset h)
reset-IntactIf false h i = tt
reset-IntactIf true h i = let k = reset-Keeps h i.0 in (k.0, omega (arith, k.1, i.1))

pub drop_slot-IntactIf :
    (whole : Bool) (id : ℕ) (h : Hold) → IntactIf whole h → IntactIf whole (drop_slot id h)
drop_slot-IntactIf false id h i = tt
drop_slot-IntactIf true id h i = let k = drop_slot-Keeps id h i.0 in (k.0, omega (arith, k.1, i.1))

frame-IntactIf :
    (whole : Bool) (status : Status) (client_of : ℕ → Option Client)
    (max_frames now keyframe_sec per_frame : ℕ) (h : Hold)
    → per_frame ≤ 8
    → IntactIf whole h
    → IntactIf whole (frame (some status) client_of max_frames now keyframe_sec per_frame h).0
frame-IntactIf false status client_of max_frames now keyframe_sec per_frame h b i = tt
frame-IntactIf true status client_of max_frames now keyframe_sec per_frame h b i = (
  frame-IsSound (some status) client_of max_frames now keyframe_sec per_frame h i.0,
  omega (
    arith,
    frame-holds (some status) client_of max_frames now keyframe_sec per_frame h i.0,
    b,
    i.1,
  ),
)

-- Less is known after a frame that breaks off.
pub weaken : (whole : Bool) (p : Plugin) → IsValid true p → IsValid whole p
weaken true p v = v
weaken false p v = record {
  intact = tt;
  cap = v.cap;
  budget = v.budget;
  errors = v.errors;
  silent = v.silent;
}

abbrev pub ValidAfter : Bool → Outcome → Type 0
ValidAfter whole (Outcome.went_through p) = IsValid whole p
ValidAfter whole (Outcome.returned p) = IsValid whole p
ValidAfter whole (Outcome.raised p) = IsValid whole p

-- A frame breaks off only where the flag allows it.
abbrev pub is_whole : StatusRead → Bool
is_whole StatusRead.unreadable = true
is_whole (StatusRead.readable status) = true
is_whole (StatusRead.breaks_off status left) = false

pub poll-ValidAfter :
    (whole : Bool) (now : ℕ) (answer : StatusRead) (client_of : ℕ → Option Client) (p : Plugin)
    → (whole ≡ true → is_whole answer ≡ true)
    → IsValid whole p
    → is_some p.broken_at ≡ false
    → ValidAfter whole (poll now answer client_of p)
unfolding poll
poll-ValidAfter whole now StatusRead.unreadable client_of p w v b = v
poll-ValidAfter true now (StatusRead.breaks_off status left) client_of p w v b = cc (w refl)
poll-ValidAfter false now (StatusRead.breaks_off status left) client_of p w v b = record {
  intact = tt;
  cap = v.cap;
  budget = v.budget;
  errors = v.errors;
  silent = λ e. cc;
}
poll-ValidAfter whole now (StatusRead.readable status) client_of p w v b = record {
  intact =
      frame-IntactIf whole status client_of p.max_frames now p.keyframe_sec p.per_frame p.hold
        v.budget.1 v.intact;
  cap = v.cap;
  budget = v.budget;
  errors = v.errors;
  silent = λ e. cc;
}
