-- ===== src/Web/Runtime.antt =====
-- apps/web/lib/telemetry/adapterFactory.ts and apps/web/components/operations/operationsRuntime.ts. An
-- adapter is a number, and what is done to it is the log of the runtime, newest first. The profiles of
-- the simulator's bindings are left out; `lower` is `String.prototype.toLowerCase`.
pub mod Counting
mod Tests
use rvf_malinois.Web.Models.{ActiveJobSnapshot}
use rvf_malinois.Prelude.{
  is_some, ℕ, ◌+◌, ◌-◌, ltb, String, str_eq, Bool, true, false, not, ◌&&◌, if◌then◌else◌, Option,
  none, some, List, [], ◌∷◌,
}

pub data TelemetrySource : Type 0 where
  simulated websocket : TelemetrySource

pub record TelemetryAdapterConfig : Type 0 where
  pub source : TelemetrySource
  pub ws_url : String
  pub fell_back_to_simulator : Bool

pub record PublicEnv : Type 0 where
  pub telemetry_source : String
  pub telemetry_ws_url : String

unfoldable pub normalize_source : (String → String) → String → TelemetrySource
normalize_source lower raw = if str_eq (lower raw) "websocket" then websocket else simulated

unfoldable pub config_of : TelemetrySource → String → TelemetryAdapterConfig
config_of simulated url = record { source = simulated; ws_url = ""; fell_back_to_simulator = false }
config_of websocket url =
    if str_eq url ""
    then record { source = simulated; ws_url = ""; fell_back_to_simulator = true }
    else record { source = websocket; ws_url = url; fell_back_to_simulator = false }

unfoldable pub get_telemetry_adapter_config : (String → String) → PublicEnv → TelemetryAdapterConfig
unfolding normalize_source config_of
get_telemetry_adapter_config lower env =
    config_of (normalize_source lower env.telemetry_source) env.telemetry_ws_url

pub record SimulatorOptions : Type 0 where
  pub seed : Option ℕ
  pub interval_ms : Option ℕ
  pub heartbeat_every_ticks : Option ℕ
  pub connection_glitch_every_ticks : Option ℕ

-- The adapter that is built, with what its constructor is given.
pub data NormalizedTelemetryAdapter : Type 0 where
  backend_web_socket : String → NormalizedTelemetryAdapter
  simulated_normalized : List ActiveJobSnapshot → ℕ → ℕ → ℕ → Option ℕ → NormalizedTelemetryAdapter

-- `a ?? b`
abbrev pub or_default : Option ℕ → ℕ → ℕ
or_default none other = other
or_default (some n) other = n

unfoldable pub build_adapter :
    List ActiveJobSnapshot
    → SimulatorOptions
    → TelemetrySource
    → String
    → NormalizedTelemetryAdapter
build_adapter bindings sim websocket url = backend_web_socket url
build_adapter bindings sim simulated url =
    simulated_normalized bindings (or_default sim.seed 17) (or_default sim.interval_ms 1000)
      (or_default sim.heartbeat_every_ticks 10) sim.connection_glitch_every_ticks

unfoldable pub config_or_env :
    (String → String) → PublicEnv → Option TelemetryAdapterConfig → TelemetryAdapterConfig
unfolding get_telemetry_adapter_config
config_or_env lower env none = get_telemetry_adapter_config lower env
config_or_env lower env (some config) = config

unfoldable pub create_telemetry_adapter :
    (String → String)
    → PublicEnv
    → List ActiveJobSnapshot
    → Option TelemetryAdapterConfig
    → SimulatorOptions
    → NormalizedTelemetryAdapter × TelemetryAdapterConfig
unfolding config_or_env build_adapter
create_telemetry_adapter lower env bindings override sim =
    let config = config_or_env lower env override in
    (build_adapter bindings sim config.source config.ws_url, config)

pub record RuntimeHandle : Type 0 where
  pub adapter : ℕ
  pub config : TelemetryAdapterConfig
  pub ref_count : ℕ

pub data Action : Type 0 where
  set_active_job_snapshot : ActiveJobSnapshot → Action
  create : ℕ → NormalizedTelemetryAdapter → Action
  notice_fallback : Action
  connect start stop disconnect : ℕ → Action

pub record Runtime : Type 0 where
  pub handle : Option RuntimeHandle
  pub next_adapter : ℕ
  pub log : List Action

abbrev pub no_options : SimulatorOptions
no_options = record {
  seed = none;
  interval_ms = none;
  heartbeat_every_ticks = none;
  connection_glitch_every_ticks = none;
}

-- `if (first) setActiveJobSnapshot(first.job)`
abbrev pub with_first_job : List ActiveJobSnapshot → List Action → List Action
with_first_job [] log = log
with_first_job (job ∷ jobs) log = set_active_job_snapshot job ∷ log

abbrev pub with_notice : Bool → List Action → List Action
with_notice true log = notice_fallback ∷ log
with_notice false log = log

module _ (lower : String → String) (env : PublicEnv) (production : Bool)
    (operations_jobs : List ActiveJobSnapshot) where
  -- The start of an adapter, where none runs.
  unfoldable pub start_adapter : Runtime → Runtime
  unfolding create_telemetry_adapter
  start_adapter r =
      let (adapter, config) = create_telemetry_adapter lower env operations_jobs none no_options in
      let k = r.next_adapter in
      record {
        handle = some (record { adapter = k; config = config; ref_count = 1 });
        next_adapter = k + 1;
        log =
            start k
            ∷ (connect k
                ∷ with_notice (config.fell_back_to_simulator && not production)
                    (create k adapter ∷ with_first_job operations_jobs r.log));
      }

  unfoldable pub attach_to : Option RuntimeHandle → Runtime → Bool × Runtime
  unfolding start_adapter
  attach_to none r = (true, start_adapter r)
  attach_to (some h) r =
      (false, record r { handle = some (record h { ref_count = h.ref_count + 1 }) })

  unfoldable pub start_operations_telemetry : Runtime → Bool × Runtime
  unfolding attach_to
  start_operations_telemetry r = attach_to r.handle r

-- `adapter.stop()`, `disconnect()` and `handle = null`
unfoldable pub stop_adapter : RuntimeHandle → Runtime → Runtime
stop_adapter h r = record r { handle = none; log = disconnect h.adapter ∷ (stop h.adapter ∷ r.log) }

unfoldable pub detach_from : Option RuntimeHandle → Runtime → Bool × Runtime
unfolding stop_adapter
detach_from none r = (false, r)
detach_from (some h) r =
    let count = h.ref_count - 1 in
    if ltb 0 count
    then (false, record r { handle = some (record h { ref_count = count }) })
    else (true, stop_adapter h r)

unfoldable pub stop_operations_telemetry : Runtime → Bool × Runtime
unfolding detach_from
stop_operations_telemetry r = detach_from r.handle r

unfoldable pub is_operations_telemetry_running : Runtime → Bool
is_operations_telemetry_running r = is_some r.handle

unfoldable pub reset_from : Option RuntimeHandle → Runtime → Runtime
unfolding stop_adapter
reset_from none r = r
reset_from (some h) r = stop_adapter h r

unfoldable pub reset_operations_telemetry : Runtime → Runtime
unfolding reset_from
reset_operations_telemetry r = reset_from r.handle r

-- `handle?.config ?? null`
abbrev pub config_in : Option RuntimeHandle → Option TelemetryAdapterConfig
config_in none = none
config_in (some h) = some h.config

unfoldable pub get_operations_telemetry_config : Runtime → Option TelemetryAdapterConfig
get_operations_telemetry_config r = config_in r.handle
