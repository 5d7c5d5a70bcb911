-- ===== src/ResyncHold/Plugin.antt =====
-- `class demo_stream_resync_hold`: the frame hook with its errors, and the other hooks.
use qlsm_extra.Base.{
  ℕ, ◌+◌, ◌-◌, ◌%◌, Bool, true, false, not, ◌&&◌, ◌||◌, Option, none, some, [], ◌∷◌, ltb, leb, ◌==◌,
  if◌then◌else◌, is_some,
}
use qlsm_extra.Base.Int.{ℤ}
use qlsm_extra.Base.Text.{Text}
use qlsm_extra.ResyncHold.{Hold, Client, Status, init, reset, drop_slot}
use qlsm_extra.ResyncHold.Frame.{frame}
use qlsm_extra.ResyncHold.Config.{
  clamp_max_frames, clamp_per_frame, keyframe_seconds, cvar_on, default_max_frames,
  default_per_frame, default_keyframe_sec,
}

pub record Plugin : Type 0 where
  pub hold : Hold
  pub supported : Bool
  pub enabled : Bool
  pub max_frames : ℕ
  pub per_frame : ℕ
  pub keyframe_sec : ℕ
  pub stream_on : Bool
  pub errors : ℕ
  pub broken_at : Option ℕ
  pub tick : ℕ

-- What `get_cvar` returns for the four cvars; `keyframe` is the whole part of the number.
pub record Cvars : Type 0 where
  pub on : Option Text
  pub max_frames : Option Text
  pub per_frame : Option Text
  pub keyframe : Option ℤ

-- SLOW_POLL_FRAMES, MAX_ERRORS_IN_A_ROW and BROKEN_RETRY_SEC
abbrev pub slow_poll_frames : ℕ
slow_poll_frames = 40

abbrev pub max_errors : ℕ
max_errors = 5

abbrev pub broken_retry_ms : ℕ
broken_retry_ms = 60000

abbrev pub rearm : Plugin → Plugin
rearm p = record p { broken_at = none; errors = 0 }

-- `_read_cvars`
unfoldable pub read_cvars : Cvars → Plugin → Plugin
read_cvars cvars p =
    let on = cvar_on cvars.on in
    let q = record p {
      enabled = on;
      max_frames = clamp_max_frames cvars.max_frames;
      per_frame = clamp_per_frame cvars.per_frame;
      keyframe_sec = keyframe_seconds cvars.keyframe;
    } in
    if on && (not p.enabled && is_some p.broken_at) then rearm q else q

-- How the four `get_cvar` calls of `_read_cvars` go: all of them return, or the one after the first
-- `n` raises.
pub data CvarRead : Type 0 where
  complete : Cvars → CvarRead
  stops_after : ℕ → Cvars → CvarRead

-- `_read_cvars` when it raises: the fields before are written, and nothing is rearmed.
unfoldable pub partly_read : ℕ → Cvars → Plugin → Plugin
partly_read n cvars p = record p {
  enabled = if leb 1 n then cvar_on cvars.on else p.enabled;
  max_frames = if leb 2 n then clamp_max_frames cvars.max_frames else p.max_frames;
  per_frame = if leb 3 n then clamp_per_frame cvars.per_frame else p.per_frame;
}

-- The state when the hook is added.
unfoldable pub start : Bool → Cvars → Plugin
start supported cvars = read_cvars cvars (record {
  hold = init;
  supported = supported;
  enabled = false;
  max_frames = default_max_frames;
  per_frame = default_per_frame;
  keyframe_sec = default_keyframe_sec;
  stream_on = false;
  errors = 0;
  broken_at = none;
  tick = 0;
})

-- How the `try` block of the hook ends.
pub data Outcome : Type 0 where
  went_through : Plugin → Outcome
  returned : Plugin → Outcome
  raised : Plugin → Outcome

-- Whether the hook is switched off after errors, and not yet due for a retry.
abbrev pub is_broken : ℕ → Option ℕ → Bool
is_broken now none = false
is_broken now (some at) = ltb (now - at) broken_retry_ms

-- How a poll of the stream goes: stream_status() raises; it answers, and `hold.frame` returns; or it
-- answers, and `hold.frame` raises half way and leaves its fields as in the given state, which may be
-- any.
pub data StatusRead : Type 0 where
  unreadable : StatusRead
  readable : Status → StatusRead
  breaks_off : Status → Hold → StatusRead

-- A poll of the stream, without the writes to the clients that `frame` names.
unfoldable pub poll : ℕ → StatusRead → (ℕ → Option Client) → Plugin → Outcome
poll now StatusRead.unreadable client_of p = Outcome.raised p
poll now (StatusRead.readable status) client_of p = Outcome.went_through (record p {
  stream_on = status.enabled;
  hold = (frame (some status) client_of p.max_frames now p.keyframe_sec p.per_frame p.hold).0;
})
poll now (StatusRead.breaks_off status left) client_of p =
    Outcome.raised (record p { stream_on = status.enabled; hold = left })

-- The state while the hook is switched off: there is nothing to reset without a slot.
unfoldable pub stopped : Hold → Hold
stopped h = elim h.slots [ [] ↦ h | _ ∷ _ ↦ reset h ]

-- The `try` block, after the cvars were read.
unfoldable pub act : Bool → ℕ → StatusRead → (ℕ → Option Client) → Plugin → Outcome
act slow now answer client_of p =
    if not p.enabled
    then Outcome.went_through (record p { hold = stopped p.hold })
    else if is_broken now p.broken_at
    then Outcome.returned p
    else let armed = if is_some p.broken_at then rearm p else p in
      if armed.stream_on || slow
      then poll now answer client_of armed
      else Outcome.went_through armed

-- The whole `try` block: the cvars are read on slow ticks only.
unfoldable pub attempt : Bool → ℕ → CvarRead → StatusRead → (ℕ → Option Client) → Plugin → Outcome
attempt false now cvars answer client_of p = act false now answer client_of p
attempt true now (CvarRead.complete cvars) answer client_of p =
    act true now answer client_of (read_cvars cvars p)
attempt true now (CvarRead.stops_after n cvars) answer client_of p =
    Outcome.raised (partly_read n cvars p)

-- The `except` block.
unfoldable pub fail : ℕ → Plugin → Plugin
fail now p =
    let counted = record p { errors = p.errors + 1 } in
    if is_some p.broken_at
    then p
    else if leb max_errors counted.errors
    then record counted { broken_at = some now; hold = reset p.hold }
    else counted

-- The end of the `try` block, or the `except` block.
unfoldable pub conclude : Bool → ℕ → Outcome → Plugin
conclude slow now (Outcome.went_through p) = if slow then record p { errors = 0 } else p
conclude slow now (Outcome.returned p) = p
conclude slow now (Outcome.raised p) = fail now p

-- `handle_frame`, for what the engine answers in this frame.
unfoldable pub handle_frame : ℕ → CvarRead → StatusRead → (ℕ → Option Client) → Plugin → Plugin
handle_frame now cvars answer client_of p =
    let ticked = record p { tick = p.tick + 1 } in
    let slow = ticked.tick % slow_poll_frames == 0 in
    if not p.supported
    then p
    else conclude slow now (attempt slow now cvars answer client_of ticked)

-- `handle_map` and `handle_player_disconnect`
abbrev pub handle_map : Plugin → Plugin
handle_map p = record p { hold = reset p.hold }

abbrev pub handle_player_disconnect : ℕ → Plugin → Plugin
handle_player_disconnect id p = record p { hold = drop_slot id p.hold }

-- `cmd_resynchold`, whose answer is text.
unfoldable pub cmd_resynchold : CvarRead → Plugin → Plugin
cmd_resynchold (CvarRead.complete cvars) p = read_cvars cvars p
cmd_resynchold (CvarRead.stops_after n cvars) p = partly_read n cvars p
