-- ===== src/Daemon/Signals/Examples.antt =====
-- A SIGTERM in pause, and one just before it.
use wifi_offload_rpi.Prelude.{arith, refl, ◌≡◌}
use wifi_offload_rpi.Daemon.Signals.{
  Loop, after_loop, before_pause, deliver_signal, main_steps, new_loop, sighup, sigterm,
}
use wifi_offload_rpi.Daemon.Signals.Wakeup.{end_of, main_steps-sigterm}

-- The main thread, on its way to pause.
abbrev late : Loop
late = record new_loop { place = before_pause }

main_steps-sigterm_example :
    ((main_steps 4 (deliver_signal sigterm late)).place ≡ end_of late.place)
    × ((main_steps 3 (deliver_signal sighup (main_steps 4 (deliver_signal sigterm late)))).place
        ≡ after_loop)
main_steps-sigterm_example = main_steps-sigterm late sighup 4 3 (omega arith) (omega arith)

-- A SIGHUP in pause has the configuration read once.
reloaded : (main_steps 3 (deliver_signal sighup (main_steps 2 new_loop))).reloads ≡ 1
unfolding main_steps deliver_signal
reloaded = refl
