-- ===== src/Web/Runtime/Tests.antt =====
-- The runtime under a double mount, and the choice of its adapter.
use rvf_malinois.Web.Runtime.{
  PublicEnv, Runtime, get_telemetry_adapter_config, simulated, start_operations_telemetry,
  stop_operations_telemetry,
}
use rvf_malinois.Web.Runtime.Counting.{
  mount, unmount, Use, run, counted, IsCounting, run-IsCounting,
}
use rvf_malinois.Prelude.{refl, false, ◌∷◌, [], none, String, true, ◌≡◌, List}

abbrev same : String → String
same text = text

abbrev asked : PublicEnv
asked = record { telemetry_source = "websocket"; telemetry_ws_url = "" }

-- A websocket without a URL falls back to the simulator.
fallback_runs :
    get_telemetry_adapter_config same asked
    ≡ record { source = simulated; ws_url = ""; fell_back_to_simulator = true }
unfolding get_telemetry_adapter_config
fallback_runs = refl

abbrev idle : Runtime
idle = record { handle = none; next_adapter = 0; log = [] }

-- Strict mode mounts twice; the adapter runs from the first mount to the last unmount.
abbrev uses : List Use
uses = mount ∷ (mount ∷ (unmount ∷ (unmount ∷ (unmount ∷ (mount ∷ [])))))

run_answers :
    (run same asked true [] uses idle).0 ≡ true ∷ (false ∷ (false ∷ (true ∷ (false ∷ (true ∷ [])))))
unfolding start_operations_telemetry stop_operations_telemetry
run_answers = refl

run-IsCounting_example :
    ((run same asked true [] uses idle).0 ≡ (counted uses 0).0)
    × IsCounting 1 (run same asked true [] uses idle).1
run-IsCounting_example =
    run-IsCounting same asked true [] uses 0 idle
      (record { counts = refl; has_user = tt; runs = refl; feeds = refl })
