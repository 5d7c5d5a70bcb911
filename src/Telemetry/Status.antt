-- ===== src/Telemetry/Status.antt =====
-- What an HTTP status of the hub becomes on its way back: the relay's reply to the plugin, and the
-- plugin's verdict on a batch.
use qlsm_extra.Base.{
  ℕ, ◌≡◌, refl, Bool, true, false, not, ◌&&◌, ◌||◌, Option, none, some, arith, ltb, leb, ◌==◌,
  if◌then◌else◌,
}

pub data Outcome : Type 0 where
  ok retry reject : Outcome

-- `post_outcome` of telemetry_unified_sched.py
unfoldable pub post_outcome : ℕ → Outcome
post_outcome status =
    if ltb status 400
    then Outcome.ok
    else if leb 500 status || (status == 408 || status == 429)
    then Outcome.retry
    else Outcome.reject

-- `upstream_reply_status` of relay.py
unfoldable pub upstream_reply_status : ℕ → ℕ
upstream_reply_status status =
    if leb 400 status && ltb status 500 && not (status == 408 || status == 429) then status else 502

-- What becomes of an item or session post at the relay. A forward to the hub is answered with a
-- status, where `_forward_post` raises UpstreamHTTPError from 400 on, or it fails with another
-- exception when the hub was not reached or did not answer in HTTP. Without a route for the server
-- or an upstream in the route nothing is forwarded, nor while the relay has no token.
pub data Forwarded : Type 0 where
  answered : ℕ → Forwarded
  failed ignored token_missing : Forwarded

-- The status that the relay answers an item or session post with: ACCEPTED, that of
-- `_forward_error_reply`, or SERVICE_UNAVAILABLE.
unfoldable pub relay_reply : Forwarded → ℕ
unfolding upstream_reply_status
relay_reply (answered status) = if leb 400 status then upstream_reply_status status else 202
relay_reply failed = 502
relay_reply ignored = 202
relay_reply token_missing = 503

-- The JSON body of the reply, as far as the plugin reads it: the keys `ok`, `forwarded`, `status`
-- ("busy" or not) and `queued`. A key that is missing is `none`.
pub record Ack : Type 0 where
  pub is_ok : Option Bool
  pub forwarded : Option Bool
  pub busy : Bool
  pub queued : Option Bool

pub data Body : Type 0 where
  -- No body, or one that is not a JSON object.
  opaque : Body
  object : Ack → Body

is_false : Option Bool → Bool
is_false (some false) = true
is_false _ = false

is_true : Option Bool → Bool
is_true (some true) = true
is_true _ = false

-- `_items_relay_accepted` of stream_telemetry_unified.py
unfoldable pub items_relay_accepted : ℕ → Body → Bool
unfolding is_false is_true
items_relay_accepted status opaque = if leb 400 status then false else true
items_relay_accepted status (object ack) =
    if leb 400 status
    then false
    else if is_false ack.is_ok
    then false
    else if is_true ack.forwarded
    then true
    else if is_false ack.forwarded
    then false
    else if ack.busy || is_false ack.queued
    then false
    else true

-- The body of the relay's reply to an item or session post.
unfoldable pub relay_body : Forwarded → Body
unfolding upstream_reply_status
relay_body (answered status) =
    if leb 400 status
    then (if upstream_reply_status status == 502
        then object
            (record { is_ok = some false; forwarded = some false; busy = false; queued = none })
        else object (record { is_ok = some false; forwarded = none; busy = false; queued = none }))
    else object
        (record { is_ok = some true; forwarded = some true; busy = false; queued = some true })
relay_body failed =
    object (record { is_ok = some false; forwarded = some false; busy = false; queued = none })
relay_body ignored =
    object (record { is_ok = some true; forwarded = none; busy = false; queued = none })
relay_body token_missing =
    object (record { is_ok = some false; forwarded = none; busy = false; queued = none })

-- What the session feed concludes behind the relay is what it would conclude from the hub's own
-- status: delivered below 400, a reject where the hub rejects for good, and another try for all
-- else, a hub that cannot be reached included.
pub post_outcome-relay_reply :
    (status : ℕ)
    → (post_outcome (relay_reply (answered status)) ≡ post_outcome status)
      × (post_outcome (relay_reply failed) ≡ Outcome.retry)
unfolding post_outcome relay_reply
post_outcome-relay_reply status = ground arith

-- Behind the relay the item feed takes a batch as delivered exactly when the hub answered below 400,
-- or the relay has no route or no upstream for the batch and drops it.
pub items_relay_accepted-relay :
    (post : Forwarded)
    → items_relay_accepted (relay_reply post) (relay_body post) ≡ elim post [
      | answered status ↦ ltb status 400
      | failed ↦ false
      | ignored ↦ true
      | token_missing ↦ false
    ]
unfolding items_relay_accepted relay_reply relay_body
items_relay_accepted-relay (answered status) = ground arith
items_relay_accepted-relay failed = refl
items_relay_accepted-relay ignored = refl
items_relay_accepted-relay token_missing = refl
