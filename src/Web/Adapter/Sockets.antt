-- ===== src/Web/Adapter/Sockets.antt =====
-- The adapter as a state machine, and the sockets it makes.
use rvf_malinois.Prelude.{
  Json, Option, none, some, Bool, true, false, List, [], ◌∷◌, ℕ, ◌==◌, if◌then◌else◌, All-In, In,
  here, there, refl, ◌≡◌, Bool-cases, inl, inr,
}
use rvf_malinois.Web.Models.{
  Platform, NormalizedTelemetryMessage, connection, reading, frame, alarm, heartbeat,
  snapshot_update,
}
use rvf_malinois.Web.Wire.{parse_normalized_message}
use rvf_malinois.Web.Adapter.{
  Adapter, Config, Timer, TimerJob, reconnect, beat, initial, emit, without, cancel, gone,
  clear_reconnect_timer, clear_heartbeat_timer, close_socket, schedule_reconnect, arm_heartbeat,
  open_socket, start, stop, on_open, on_message, on_close, on_timer, fire, track_last_data, deliver,
}
use rvf_malinois.Web.Adapter.Timers.{
  Held, HeldBy, start-Held, stop-Held, on_open-Held, on_message-Held, on_close-Held, fire-Held,
  cancel_beat, cancel_reconnect, none_held,
}

module _ (js : Platform) (config : Config) where
  -- What can happen after the adapter was stopped and before it is started again. A socket opens
  -- and delivers only until it is closed; that it was closed can be heard of at any time, and more
  -- than once.
  pub data Event (a : Adapter) : Adapter → Type 0 where
    stopped : Event a (stop js config a)
    opened : (k : ℕ) → In k a.alive → Event a (on_open js config a)
    received : (k : ℕ) (x : Json) → In k a.alive → Event a (on_message js config x a)
    closed : (k : ℕ) → Event a (on_close js config k a)
    fired : (t : Timer) → In t a.timers → Event a (fire js config t a)

  pub data Reachable : Adapter → Type 0 where
    made : Reachable initial
    started : {a : Adapter} → Reachable a → Reachable (start js config a)
    happened : {a b : Adapter} → Reachable a → Event a b → Reachable b

  -- The states after `a` with no `start` in between.
  pub data Later (a : Adapter) : Adapter → Type 0 where
    now : Later a a
    next : {b c : Adapter} → Later a b → Event b c → Later a c

  Event-Held : {a b : Adapter} → Event a b → Held a → Held b
  unfolding fire
  Event-Held stopped held = stop-Held js config _ held
  Event-Held (opened k i) held = on_open-Held js config _ held
  Event-Held (received k x i) held = on_message-Held js config x _ held
  Event-Held (closed k) held = on_close-Held js config k _ held
  Event-Held {a} (fired t i) held =
      fire-Held js config t t.job a (All-In (HeldBy a.reconnect_timer a.heartbeat_timer) held i)
        held

  Reachable-Held : {a : Adapter} → Reachable a → Held a
  unfolding initial
  Reachable-Held made = tt
  Reachable-Held (started r) = start-Held js config _ (Reachable-Held r)
  Reachable-Held (happened r e) = Event-Held e (Reachable-Held r)

  -- Whatever happened before, stopping a running adapter leaves no timer pending and no socket in
  -- its hands.
  pub stop-timers :
      (a : Adapter)
      → Reachable a
      → a.running ≡ true
      → ((stop js config a).timers ≡ []) × ((stop js config a).socket ≡ none)
  unfolding stop emit clear_heartbeat_timer clear_reconnect_timer close_socket
  stop-timers a r e =
      let held = Reachable-Held r in
      rw e (
        none_held (cancel a.heartbeat_timer (cancel a.reconnect_timer a.timers)) (
            cancel_beat none a.heartbeat_timer (cancel a.reconnect_timer a.timers)
              (cancel_reconnect a.reconnect_timer a.heartbeat_timer a.timers held)),
        refl,
      )

  -- Stopped, and no socket asked for since there were `n`.
  abbrev Idle : ℕ → Adapter → Type 0
  Idle n a = (a.intentionally_stopped ≡ true) × (a.next_socket ≡ n)

  if_Idle : (n : ℕ) (b : Bool) (x y : Adapter) → Idle n x → Idle n y → Idle n (if b then x else y)
  if_Idle n true x y p q = p
  if_Idle n false x y p q = q

  deliver-Idle :
      (n : ℕ) (m : Option NormalizedTelemetryMessage) (a : Adapter)
      → Idle n a
      → Idle n (deliver js config m a)
  unfolding emit track_last_data
  deliver-Idle n none a idle = idle
  deliver-Idle n (some (reading r)) a idle = idle
  deliver-Idle n (some (frame f)) a idle = idle
  deliver-Idle n (some (alarm e)) a idle = idle
  deliver-Idle n (some (heartbeat ts)) a idle = idle
  deliver-Idle n (some (connection s)) a idle = idle
  deliver-Idle n (some (snapshot_update s)) a idle = idle

  on_timer-Idle :
      (n : ℕ) (job : TimerJob) (a : Adapter) → Idle n a → Idle n (on_timer js config job a)
  unfolding on_timer open_socket
  on_timer-Idle n reconnect a (s, e) = rw s (refl, e)
  on_timer-Idle n beat a (s, e) = rw s (refl, e)

  Event-Idle : (n : ℕ) {a b : Adapter} → Event a b → Idle n a → Idle n b
  unfolding stop on_open on_message on_close fire emit arm_heartbeat clear_heartbeat_timer
      clear_reconnect_timer close_socket
  Event-Idle n {a} stopped (s, e) = if_Idle n a.running _ a (refl, e) (s, e)
  Event-Idle n (opened k i) idle = idle
  Event-Idle n {a} (received k x i) idle =
      deliver-Idle n (parse_normalized_message js config.json_parse x) (arm_heartbeat js config a)
        idle
  Event-Idle n (closed k) (s, e) = rw s (refl, e)
  Event-Idle n {a} (fired t i) idle =
      on_timer-Idle n t.job (record a { timers = without t.id a.timers }) idle

  -- Once the adapter is stopped on purpose, no socket is asked for until the next start, whichever
  -- timers still fire and whatever the sockets still report.
  pub Later-next_socket :
      (a b : Adapter)
      → a.intentionally_stopped ≡ true
      → Later a b
      → (b.intentionally_stopped ≡ true) × (b.next_socket ≡ a.next_socket)
  Later-next_socket a b s now = (s, refl)
  Later-next_socket a c s (next l e) = Event-Idle a.next_socket e (Later-next_socket a _ s l)

In-gone : (j k : ℕ) (ks : List ℕ) → (k == j) ≡ false → In k ks → In k (gone (some j) ks)
In-gone j k [] d i = elim i [ ]
In-gone j k (x ∷ xs) d here = rw d here
In-gone j k (x ∷ xs) d (there i) = elim (Bool-cases (x == j)) [
  | inl e ↦ rw e (In-gone j k xs d i)
  | inr e ↦ rw e (there (In-gone j k xs d i))
]

-- The adapter holds the socket `k`; when it hears that another socket was closed, it lets go of
-- `k` without closing it, and a stop no longer closes it either.
pub stop-on_close_other :
    (js : Platform) (config : Config) (j k : ℕ) (a : Adapter)
    → a.running ≡ true
    → a.intentionally_stopped ≡ false
    → a.socket ≡ some k
    → In k a.alive
    → (k == j) ≡ false
    → ((on_close js config j a).socket ≡ none)
      × In k (stop js config (on_close js config j a)).alive
unfolding on_close emit clear_heartbeat_timer schedule_reconnect clear_reconnect_timer stop
    close_socket
stop-on_close_other js config j k a running meant held alive other =
    rw (running, meant) (refl, In-gone j k a.alive other alive)
