-- ===== src/Wpa/Shutdown/Examples.antt =====
-- A monitor that is stopped in poll, and one that is stopped too early.
use wifi_offload_rpi.Prelude.{Bool, List, [], arith, false, refl, true, ◌∷◌, ◌≡◌, ◌≢◌}
use wifi_offload_rpi.Wpa.Shutdown.{Monitor, new_monitor, polling, returned, run_alone, stop}
use wifi_offload_rpi.Wpa.Shutdown.Return.{run_alone-early_stop, run_alone-stop}

abbrev in_poll : Monitor
in_poll = record { stop_requested = false; ctrl = true; position = polling }

abbrev answers : List Bool
answers = true ∷ false ∷ true ∷ true ∷ false ∷ true ∷ []

run_alone-stop_example :
    run_alone answers (stop in_poll)
    ≡ record { stop_requested = true; ctrl = false; position = returned }
run_alone-stop_example = run_alone-stop answers in_poll refl (λ e. cc) (omega arith)

run_alone-early_stop_example : (run_alone answers (stop new_monitor)).position ≢ returned
run_alone-early_stop_example = run_alone-early_stop answers new_monitor refl
