-- ===== src/Web/Adapter/Timers.antt =====
-- No timer of the adapter is left pending.
use rvf_malinois.Prelude.{
  Json, Option, none, some, Bool, true, false, List, [], ◌∷◌, ℕ, ◌==◌, ◌+◌, if◌then◌else◌, All,
  All-map, arith, refl, ◌≡◌, subst, Bool-cases, inl, inr,
}
use rvf_malinois.Web.Models.{
  Platform, NormalizedTelemetryMessage, connected, reconnecting, connection, reading, frame, alarm,
  heartbeat, snapshot_update,
}
use rvf_malinois.Web.Wire.{parse_normalized_message}
use rvf_malinois.Web.Adapter.{
  Adapter, Config, Timer, TimerJob, reconnect, beat, emit, without, cancel, gone,
  clear_reconnect_timer, clear_heartbeat_timer, close_socket, schedule_reconnect, arm_heartbeat,
  open_socket, start, stop, on_open, on_message, on_close, on_timer, track_last_data, deliver,
}

abbrev pub HeldAs : Option ℕ → Option ℕ → ℕ → TimerJob → Type 0
HeldAs r h id reconnect = r ≡ some id
HeldAs r h id beat = h ≡ some id

-- The handle that the adapter keeps for a timer.
abbrev pub HeldBy : Option ℕ → Option ℕ → Timer → Type 0
HeldBy r h t = HeldAs r h t.id t.job

-- Every pending timer is one that the adapter can still cancel.
abbrev pub Held : Adapter → Type 0
Held a = All (HeldBy a.reconnect_timer a.heartbeat_timer) a.timers

unheld_reconnect :
    (r h : Option ℕ) (t : Timer) (job : TimerJob) → HeldAs none h t.id job → HeldAs r h t.id job
unheld_reconnect r h t reconnect e = cc
unheld_reconnect r h t beat e = e

unheld_beat :
    (r h : Option ℕ) (t : Timer) (job : TimerJob) → HeldAs r none t.id job → HeldAs r h t.id job
unheld_beat r h t reconnect e = e
unheld_beat r h t beat e = cc

other_reconnect :
    (id other : ℕ) (h : Option ℕ) (job : TimerJob)
    → (other == id) ≡ false
    → HeldAs (some id) h other job
    → HeldAs none h other job
other_reconnect id other h reconnect d e = let i : id ≡ other = cc in absurd (ground arith)
other_reconnect id other h beat d e = e

other_beat :
    (id other : ℕ) (r : Option ℕ) (job : TimerJob)
    → (other == id) ≡ false
    → HeldAs r (some id) other job
    → HeldAs r none other job
other_beat id other r reconnect d e = e
other_beat id other r beat d e = let i : id ≡ other = cc in absurd (ground arith)

-- Cancelling a handle leaves no timer that it held.
without-All :
    (id : ℕ) (P Q : Timer → Type 0) (ts : List Timer)
    → ((t : Timer) → (t.id == id) ≡ false → P t → Q t)
    → All P ts
    → All Q (without id ts)
without-All id P Q [] f held = tt
without-All id P Q (t ∷ ts) f (p, held) = elim (Bool-cases (t.id == id)) [
  | inl e ↦ rw e (without-All id P Q ts f held)
  | inr e ↦ rw e (f t e p, without-All id P Q ts f held)
]

pub cancel_reconnect :
    (r h : Option ℕ) (ts : List Timer) → All (HeldBy r h) ts → All (HeldBy none h) (cancel r ts)
cancel_reconnect none h ts held = held
cancel_reconnect (some id) h ts held =
    without-All id (HeldBy (some id) h) (HeldBy none h) ts
      (λ t d e. other_reconnect id t.id h t.job d e) held

pub cancel_beat :
    (r h : Option ℕ) (ts : List Timer) → All (HeldBy r h) ts → All (HeldBy r none) (cancel h ts)
cancel_beat r none ts held = held
cancel_beat r (some id) ts held =
    without-All id (HeldBy r (some id)) (HeldBy r none) ts (λ t d e. other_beat id t.id r t.job d e)
      held

held_by_none : (id : ℕ) (job : TimerJob) → HeldAs none none id job → ⊥
held_by_none id reconnect e = cc
held_by_none id beat e = cc

pub none_held : (ts : List Timer) → All (HeldBy none none) ts → ts ≡ []
none_held [] held = refl
none_held (t ∷ ts) (e, held) = absurd (held_by_none t.id t.job e)

if_Held : (b : Bool) (x y : Adapter) → Held x → Held y → Held (if b then x else y)
if_Held true x y p q = p
if_Held false x y p q = q

module _ (js : Platform) (config : Config) where
  schedule_reconnect-Held : (a : Adapter) → Held a → Held (schedule_reconnect js config a)
  unfolding schedule_reconnect clear_reconnect_timer
  schedule_reconnect-Held a held = elim (Bool-cases a.intentionally_stopped) [
    | inl s ↦ rw s held
    | inr s ↦ rw s (
      refl,
      All-map (cancel a.reconnect_timer a.timers)
          (λ t e. unheld_reconnect (some a.next_timer) a.heartbeat_timer t t.job e)
          (cancel_reconnect a.reconnect_timer a.heartbeat_timer a.timers held),
    )
  ]

  arm_heartbeat-Held : (a : Adapter) → Held a → Held (arm_heartbeat js config a)
  unfolding arm_heartbeat clear_heartbeat_timer
  arm_heartbeat-Held a held = (
    refl,
    All-map (cancel a.heartbeat_timer a.timers)
        (λ t e. unheld_beat a.reconnect_timer (some a.next_timer) t t.job e)
        (cancel_beat a.reconnect_timer a.heartbeat_timer a.timers held),
  )

  open_socket-Held : (a : Adapter) → Held a → Held (open_socket js config a)
  unfolding open_socket
  open_socket-Held a held = if_Held a.intentionally_stopped a _ held (
      if_Held (config.creates a.next_socket) _ _ held
        (schedule_reconnect-Held (record a { next_socket = a.next_socket + 1 }) held))

  pub start-Held : (a : Adapter) → Held a → Held (start js config a)
  unfolding start emit
  start-Held a held =
      let b : Adapter = record a {
        running = true;
        intentionally_stopped = false;
        reconnect_attempt = 0;
      } in
      let announced : Adapter = emit (connection (reconnecting a.last_data_ts)) b in
      if_Held a.running a _ held (
        if_Held config.has_url (open_socket js config announced) _ (open_socket-Held announced held)
          held)

  pub stop-Held : (a : Adapter) → Held a → Held (stop js config a)
  unfolding stop emit clear_heartbeat_timer clear_reconnect_timer close_socket
  stop-Held a held = elim (Bool-cases a.running) [
    | inl s ↦ rw s (
        cancel_beat none a.heartbeat_timer (cancel a.reconnect_timer a.timers)
          (cancel_reconnect a.reconnect_timer a.heartbeat_timer a.timers held))
    | inr s ↦ rw s held
  ]

  pub on_close-Held : (k : ℕ) (a : Adapter) → Held a → Held (on_close js config k a)
  unfolding on_close emit clear_heartbeat_timer
  on_close-Held k a held =
      let calm = cancel_beat a.reconnect_timer a.heartbeat_timer a.timers held in
      let b : Adapter =
        record (clear_heartbeat_timer (record a { alive = gone (some k) a.alive })) {
          socket = none;
        } in
      let announced : Adapter = emit (connection (reconnecting a.last_data_ts)) b in
      if_Held a.intentionally_stopped b (schedule_reconnect js config announced) calm
        (schedule_reconnect-Held announced calm)

  track_last_data-Held :
      (m : NormalizedTelemetryMessage) (a : Adapter)
      → Held a
      → Held (emit m (track_last_data js config m a))
  unfolding emit track_last_data
  track_last_data-Held (reading r) a held = held
  track_last_data-Held (frame f) a held = held
  track_last_data-Held (alarm e) a held = held
  track_last_data-Held (heartbeat ts) a held = held
  track_last_data-Held (connection s) a held = held
  track_last_data-Held (snapshot_update s) a held = held

  deliver-Held :
      (m : Option NormalizedTelemetryMessage) (a : Adapter) → Held a → Held (deliver js config m a)
  deliver-Held none a held = held
  deliver-Held (some m) a held = track_last_data-Held m a held

  pub on_open-Held : (a : Adapter) → Held a → Held (on_open js config a)
  unfolding on_open emit
  on_open-Held a held =
      arm_heartbeat-Held
        (emit (connection (connected (js.to_iso (config.now a.next_timer))))
          (record a { reconnect_attempt = 0 }))
        held

  pub on_message-Held : (x : Json) (a : Adapter) → Held a → Held (on_message js config x a)
  unfolding on_message
  on_message-Held x a held =
      deliver-Held (parse_normalized_message js config.json_parse x) (arm_heartbeat js config a)
        (arm_heartbeat-Held a held)

  -- A timer that fires is no longer pending, and the adapter no longer has its handle.
  pub fire-Held :
      (t : Timer) (job : TimerJob) (a : Adapter)
      → HeldAs a.reconnect_timer a.heartbeat_timer t.id job
      → Held a
      → Held (on_timer js config job (record a { timers = without t.id a.timers }))
  unfolding on_timer emit close_socket
  fire-Held t reconnect a e held =
      let rest : List Timer = without t.id a.timers in
      let calm : All (HeldBy none a.heartbeat_timer) rest =
        without-All t.id (HeldBy a.reconnect_timer a.heartbeat_timer)
          (HeldBy none a.heartbeat_timer) a.timers
          (λ u d h.
            other_reconnect t.id u.id a.heartbeat_timer u.job d
              (subst (λ r. HeldAs r a.heartbeat_timer u.id u.job) e h))
          held in
      open_socket-Held (record a { timers = rest; reconnect_timer = none }) calm
  fire-Held t beat a e held =
      let rest : List Timer = without t.id a.timers in
      let calm : All (HeldBy a.reconnect_timer none) rest =
        without-All t.id (HeldBy a.reconnect_timer a.heartbeat_timer)
          (HeldBy a.reconnect_timer none) a.timers
          (λ u d h.
            other_beat t.id u.id a.reconnect_timer u.job d
              (subst (λ r. HeldAs a.reconnect_timer r u.id u.job) e h))
          held in
      let b : Adapter = record a { timers = rest; heartbeat_timer = none } in
      let closed : Adapter = close_socket (emit (connection (reconnecting a.last_data_ts)) b) in
      if_Held a.intentionally_stopped b (schedule_reconnect js config closed) calm
        (schedule_reconnect-Held closed calm)
