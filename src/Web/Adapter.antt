-- ===== src/Web/Adapter.antt =====
-- The adapter of apps/web/lib/telemetry/adapters/websocket.ts. What the adapter asks of the runtime
-- is part of the state: the timers that are pending, the sockets that were made and not closed, and
-- the messages that the listeners were given.
pub mod Timers
pub mod Sockets
pub mod Backoff
mod Tests
use rvf_malinois.Prelude.{
  Json, Option, none, some, String, Bool, true, false, not, List, [], ◌∷◌, ◌++◌, ℕ, suc, Time, ◌==◌,
  ◌+◌, if◌then◌else◌, filter_by, get_or, min, str_eq,
}
use rvf_malinois.Web.Models.{
  Platform, CommunicationStatus, NormalizedTelemetryMessage, reading, frame, alarm, heartbeat,
  connection, snapshot_update, connected, reconnecting, disconnected,
}
use rvf_malinois.Web.Wire.{parse_normalized_message}

abbrev pub backoff_steps_ms : List ℕ
backoff_steps_ms = 500 ∷ 1000 ∷ 2000 ∷ 4000 ∷ 8000 ∷ 16000 ∷ 30000 ∷ []

-- `jitter n base` is `Math.round(base + base * 0.25 * rng())` at the `n`-th call of `rng`.
unfoldable pub backoff_for : (ℕ → ℕ → ℕ) → ℕ → ℕ → ℕ
backoff_for jitter n attempt = jitter n (get_or backoff_steps_ms (min attempt 6) 30000)

pub data TimerJob : Type 0 where
  reconnect beat : TimerJob

pub record Timer : Type 0 where
  pub id : ℕ
  pub job : TimerJob
  pub delay : ℕ

pub record Adapter : Type 0 where
  pub running : Bool
  pub intentionally_stopped : Bool
  pub socket : Option ℕ
  pub reconnect_timer : Option ℕ
  pub heartbeat_timer : Option ℕ
  pub reconnect_attempt : ℕ
  pub last_data_ts : Option String
  -- the runtime's
  pub timers : List Timer
  pub next_timer : ℕ
  pub alive : List ℕ
  pub next_socket : ℕ
  pub emitted : List NormalizedTelemetryMessage

-- What the constructor is given, and the runtime.
pub record Config : Type 0 where
  pub has_url : Bool
  pub heartbeat_timeout_ms : ℕ
  -- whether the `n`-th call of `createSocket` returns a socket
  pub creates : ℕ → Bool
  pub jitter : ℕ → ℕ → ℕ
  pub now : ℕ → Time
  pub json_parse : String → Option Json

unfoldable pub initial : Adapter
initial = record {
  running = false;
  intentionally_stopped = false;
  socket = none;
  reconnect_timer = none;
  heartbeat_timer = none;
  reconnect_attempt = 0;
  last_data_ts = none;
  timers = [];
  next_timer = 0;
  alive = [];
  next_socket = 0;
  emitted = [];
}

unfoldable pub emit : NormalizedTelemetryMessage → Adapter → Adapter
emit m a = record a { emitted = a.emitted ++ (m ∷ []) }

abbrev pub emit_status : CommunicationStatus → Adapter → Adapter
emit_status s a = emit (connection s) a

-- `clearTimer(handle)`
abbrev pub without : ℕ → List Timer → List Timer
without id ts = filter_by (λ t. not (t.id == id)) ts

abbrev pub cancel : Option ℕ → List Timer → List Timer
cancel none ts = ts
cancel (some id) ts = without id ts

unfoldable pub clear_reconnect_timer : Adapter → Adapter
clear_reconnect_timer a = record a {
  timers = cancel a.reconnect_timer a.timers;
  reconnect_timer = none;
}

unfoldable pub clear_heartbeat_timer : Adapter → Adapter
clear_heartbeat_timer a = record a {
  timers = cancel a.heartbeat_timer a.timers;
  heartbeat_timer = none;
}

abbrev pub gone : Option ℕ → List ℕ → List ℕ
gone none ks = ks
gone (some id) ks = filter_by (λ k. not (k == id)) ks

unfoldable pub close_socket : Adapter → Adapter
close_socket a = record a { alive = gone a.socket a.alive; socket = none }

module _ (js : Platform) (config : Config) where
  unfoldable pub schedule_reconnect : Adapter → Adapter
  unfolding clear_reconnect_timer backoff_for
  schedule_reconnect a =
      if a.intentionally_stopped
      then a
      else (let b = clear_reconnect_timer a in
          record b {
            reconnect_attempt = b.reconnect_attempt + 1;
            reconnect_timer = some b.next_timer;
            timers =
                record {
                  id = b.next_timer;
                  job = reconnect;
                  delay = backoff_for config.jitter b.next_timer b.reconnect_attempt;
                }
                ∷ b.timers;
            next_timer = b.next_timer + 1;
          })

  unfoldable pub arm_heartbeat : Adapter → Adapter
  unfolding clear_heartbeat_timer
  arm_heartbeat a =
      let b = clear_heartbeat_timer a in
      record b {
        heartbeat_timer = some b.next_timer;
        timers =
            record { id = b.next_timer; job = beat; delay = config.heartbeat_timeout_ms }
            ∷ b.timers;
        next_timer = b.next_timer + 1;
      }

  unfoldable pub open_socket : Adapter → Adapter
  unfolding schedule_reconnect
  open_socket a =
      if a.intentionally_stopped
      then a
      else if config.creates a.next_socket
      then record a {
        socket = some a.next_socket;
        alive = a.next_socket ∷ a.alive;
        next_socket = a.next_socket + 1;
      }
      else schedule_reconnect (record a { next_socket = a.next_socket + 1 })

  unfoldable pub start : Adapter → Adapter
  unfolding emit open_socket
  start a =
      if a.running
      then a
      else (let b = record a {
        running = true;
        intentionally_stopped = false;
        reconnect_attempt = 0;
      } in
          if config.has_url
          then open_socket (emit_status (reconnecting b.last_data_ts) b)
          else emit_status (disconnected b.last_data_ts) b)

  unfoldable pub stop : Adapter → Adapter
  unfolding emit clear_reconnect_timer clear_heartbeat_timer close_socket
  stop a =
      if a.running
      then emit_status (disconnected a.last_data_ts) (
          close_socket (
            clear_heartbeat_timer
              (clear_reconnect_timer (record a { running = false; intentionally_stopped = true }))))
      else a

  -- `onCatchUp` is the caller's, and what it throws is ignored.
  unfoldable pub on_open : Adapter → Adapter
  unfolding emit arm_heartbeat
  on_open a = arm_heartbeat (
      emit_status (connected (js.to_iso (config.now a.next_timer)))
        (record a { reconnect_attempt = 0 }))

  unfoldable pub track_last_data : NormalizedTelemetryMessage → Adapter → Adapter
  track_last_data (reading r) a = record a { last_data_ts = some r.ts }
  track_last_data (frame f) a = record a { last_data_ts = some f.ts }
  track_last_data (heartbeat ts) a = record a { last_data_ts = some ts }
  track_last_data (alarm e) a = a
  track_last_data (connection s) a = a
  track_last_data (snapshot_update s) a = a

  abbrev pub deliver : Option NormalizedTelemetryMessage → Adapter → Adapter
  deliver none a = a
  deliver (some m) a = emit m (track_last_data m a)

  unfoldable pub on_message : Json → Adapter → Adapter
  unfolding emit arm_heartbeat track_last_data
  on_message payload a =
      deliver (parse_normalized_message js config.json_parse payload) (arm_heartbeat a)

  -- The socket `k` is closed, by either side.
  unfoldable pub on_close : ℕ → Adapter → Adapter
  unfolding emit clear_heartbeat_timer schedule_reconnect
  on_close k a =
      let b = record (clear_heartbeat_timer (record a { alive = gone (some k) a.alive })) {
        socket = none;
      } in
      if b.intentionally_stopped
      then b
      else schedule_reconnect (emit_status (reconnecting b.last_data_ts) b)

  unfoldable pub on_timer : TimerJob → Adapter → Adapter
  unfolding emit close_socket schedule_reconnect open_socket
  on_timer reconnect a = open_socket (record a { reconnect_timer = none })
  on_timer beat a =
      let b = record a { heartbeat_timer = none } in
      if b.intentionally_stopped
      then b
      else schedule_reconnect (close_socket (emit_status (reconnecting b.last_data_ts) b))

  -- A pending timer fires.
  unfoldable pub fire : Timer → Adapter → Adapter
  unfolding on_timer
  fire t a = on_timer t.job (record a { timers = without t.id a.timers })
