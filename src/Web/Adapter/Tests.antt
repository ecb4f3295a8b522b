-- ===== src/Web/Adapter/Tests.antt =====
-- The adapter through a few events.
use rvf_malinois.Prelude.{none, true, [], ◌+◌, ◌/◌, ◌≡◌, refl, In, here}
use rvf_malinois.Web.Adapter.{
  Timer, beat, reconnect, on_open, fire, Adapter, Config, initial, start, stop, on_close,
}
use rvf_malinois.Web.Adapter.Sockets.{
  Reachable, happened, opened, fired, made, started, closed, now, next, stop-timers,
  Later-next_socket, stop-on_close_other,
}
use rvf_malinois.Web.Tests.{js}

abbrev config : Config
config = record {
  has_url = true;
  heartbeat_timeout_ms = 30000;
  creates = λ n. true;
  jitter = λ n base. base + base / 4;
  now = λ n. 1000;
  json_parse = λ text. none;
}

stop-timers_example :
    ((stop js config (start js config initial)).timers ≡ [])
    × ((stop js config (start js config initial)).socket ≡ none)
unfolding start initial
stop-timers_example = stop-timers js config (start js config initial) (started made) refl

abbrev halted : Adapter
halted = stop js config (start js config initial)

Later-next_socket_example :
    ((on_close js config 0 halted).intentionally_stopped ≡ true)
    × ((on_close js config 0 halted).next_socket ≡ halted.next_socket)
unfolding stop start initial
Later-next_socket_example =
    Later-next_socket js config halted (on_close js config 0 halted) refl (next now (closed 0))

-- The first socket opens, stays silent, and is given up; the reconnection makes a second one before
-- the close of the first is heard of.
abbrev silence : Timer
silence = record { id = 0; job = beat; delay = 30000 }

abbrev again : Timer
again = record { id = 1; job = reconnect; delay = 625 }

abbrev given_up : Adapter
given_up = fire js config silence (on_open js config (start js config initial))

abbrev replaced_socket : Adapter
replaced_socket = fire js config again given_up

replaced_socket-Reachable : Reachable js config replaced_socket
unfolding start initial on_open fire
replaced_socket-Reachable =
    happened (happened (happened (started made) (opened 0 here)) (fired silence here))
      (fired again here)

stop-on_close_other_example :
    ((on_close js config 0 replaced_socket).socket ≡ none)
    × In 1 (stop js config (on_close js config 0 replaced_socket)).alive
unfolding start initial on_open fire
stop-on_close_other_example =
    stop-on_close_other js config 0 1 replaced_socket refl refl refl here refl
