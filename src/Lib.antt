-- ===== src/Lib.antt =====
-- qlsm-extra: the plugins and addons for Quake Live servers, as far as their own logic goes.
--
-- The parts. Gun Game (gungame.py) and tower defence (td_rules.py, driven by tower_defence.py) are
-- game modes: a class that keeps the match's state, and hooks that the engine calls. The telemetry
-- plugin (stream_telemetry_unified.py) collects item and session rows on the game thread and posts
-- them in batches from worker threads, with the helpers of telemetry_unified_sched.py; the relay
-- (addons/telemetry-relay/assets/relay.py) takes the posts and forwards them to the stats hub.
-- stats_hub_pause.py tells the telemetry whether the match is paused. The event tracker of the host
-- metrics (addons/host-metrics) turns a collector's samples into events of a table. restore/items.py
-- and restore/codec.py are about the checkpoint of a match that is restored; raw_match_groups.py of
-- the demo management sorts a listing by match. demo_stream_resync_hold.py decides in each server
-- frame which players of a live demo stream get a full snapshot, until their client acknowledges
-- one. item_roulette.py flips a coin at each pickup and turns it into a loss or a curse.
-- frame_timing.py counts the gaps between frames.
--
-- The files.
--   Base             numbers, tests, lists; Base/Dict a dict in insertion order, Base/Text ASCII text
--   TowerDefence     td_rules.py: Tables the tables, Rules class Game, Calls and Runs whole games
--   GunGame          gungame.py: Parse parse_ladder, Steps advance and pick_leader, Plugin the kill and
--                    death handlers, Match the lifecycle handlers, Loadout the frames after a
--                    spawn or a step up, Hooks all that change the fields, in any order
--   Telemetry/Feed   class FeedState; Feed/Slot the slot with its workers, Feed/Circuit the breaker
--   Telemetry/Sched  class FovCache, on_stride, ack_batch
--   Telemetry/Status post_outcome, the relay's replies and _items_relay_accepted
--   Telemetry/Relay  class _StreamForwarder; Relay/Drain its worker alone, Relay/Tries its
--                    posts, Relay/Place its order
--   Telemetry/Items  the item feed: on_item_event, _flush_items_async, _post_items_batch,
--                    _drive_item_events
--   Telemetry/Session the session feed: _enqueue_session, _drive_session_events, _post_session_batch
--   Pause            stats_hub_pause.py: the pause latch; Pause/Commands the text of a command
--   HostMetrics      addons/host-metrics/assets/hm_events.py: Observe and Evaluate class EventTracker, with
--                    the event rows of hm_store.py
--   Restore          restore/items.py: the items of a checkpoint; Restore/Loadout, Owned and Drops the
--                    weapon masks and the rows of dropped items of restore/codec.py
--   MatchGroups      addons/demo-management/raw_match_groups.py
--   ResyncHold       demo_stream_resync_hold.py: Slots and State the data of class ResyncHold, Phases and
--                    Asking the parts of its frame method, Frame the rest and the whole; Config the cvars,
--                    Plugin the frame hook with its errors (a frame method that raises half way may
--                    leave any state), Events all hooks in any order
--   Roulette         item_roulette.py: Rules parse_rules, Plan the pure decisions, State the state, Pickup
--                    the touch and pickup hooks, Curses the damage and frame hooks, Events all in any order
--   FrameTiming      frame_timing.py: class FrameStats and the hooks of the plugin
--   Tests modules    runs on concrete input
--
-- How the state is kept. A class is a record with a field per attribute, a method a function from the
-- record to the new one and what it returns; an exception is `none`. What the engine and the cvars
-- answer is an argument. Threads are a step relation on the shared state and the list of running
-- workers, with each method as one step. The relay's queue has a lock; FeedState takes none, and
-- Feed/Slot has the two halves of its complete() as two steps, but no check_stuck() between them.
-- The item worker's end is two steps, settle and wind_up, taken together in Items/Delivery and apart
-- in Items/Race. The three parts of _drive_session_events are three steps.
--
-- Bounds. Times are whole milliseconds (seconds in HostMetrics, microseconds in FrameTiming), and
-- `now - t >= d` is written `t + d <= now`. Numbers do not overflow in Python. A player,
-- a pad, a row and a relay job's content are numbers that stand for their identity. The refund factor 0.7 is 7/10, exact on the multiples of 100 that all prices are;
-- creep_hp, which rounds a product of floats, is left out. All loops are over lists; the only fuel is the
-- relay worker's number of posts, and Relay/Drain shows how many are enough.
--
-- Not modelled: HUD text and panels, map items, log lines, HTTP and JSON, the engine, and the other
-- plugins and addons.
pub mod Base
pub mod FrameTiming
pub mod GunGame
pub mod HostMetrics
pub mod MatchGroups
pub mod Pause
pub mod Restore
pub mod ResyncHold
pub mod Roulette
pub mod Telemetry
pub mod TowerDefence
