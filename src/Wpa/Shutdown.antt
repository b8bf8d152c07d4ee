-- ===== src/Wpa/Shutdown.antt =====
-- wpa/wpa_monitor.cpp, start, stop and the destructor with the stop flag that two threads share: the
-- monitor's thread step by step, in any order with the calls of stop.
mod Examples
pub mod Return
use wifi_offload_rpi.Prelude.{Bool, List, [], false, if◌then◌else◌, true, ◌∷◌}

-- Where the monitor's thread is.
pub data Position : Type 0 where
  -- before start, and after its return
  not_started returned : Position
  -- the tests of the flag: of the reconnect loop, of the poll loop, after it, before the sleep
  at_loop at_poll_loop after_polls before_sleep : Position
  opening attaching polling detaching sleeping : Position

pub record Monitor : Type 0 where
  pub stop_requested : Bool
  -- whether ctrl_ is open
  pub ctrl : Bool
  pub position : Position

abbrev pub new_monitor : Monitor
new_monitor = record { stop_requested = false; ctrl = false; position = not_started }

-- One step of the monitor's thread. The answer is what the library gives: that wpa_ctrl_open or
-- wpa_ctrl_attach succeeds, or that poll and handleEvent leave the poll loop running.
unfoldable pub advance : Bool → Position → Monitor → Monitor
advance answer not_started m = record m { stop_requested = false; position = at_loop }
advance answer at_loop m = record m { position = if m.stop_requested then returned else opening }
advance true opening m = record m { ctrl = true; position = attaching }
advance false opening m = record m { position = before_sleep }
advance true attaching m = record m { position = at_poll_loop }
advance false attaching m = record m { ctrl = false; position = before_sleep }
advance answer at_poll_loop m = record m {
  position = if m.stop_requested then detaching else polling;
}
advance true polling m = record m { position = at_poll_loop }
advance false polling m = record m { position = detaching }
advance answer detaching m = record m { ctrl = false; position = after_polls }
advance answer after_polls m = record m {
  position = if m.stop_requested then returned else before_sleep;
}
advance answer before_sleep m = record m {
  position = if m.stop_requested then returned else sleeping;
}
advance answer sleeping m = record m { position = at_loop }
advance answer returned m = m

unfoldable pub stop : Monitor → Monitor
stop m = record m { stop_requested = true }

-- A thread that ran start was joined before.
unfoldable pub destroy : Monitor → Monitor
unfolding stop
destroy m = record (stop m) { ctrl = false }

-- The monitor's thread alone, over the answers that it gets.
unfoldable pub run_alone : List Bool → Monitor → Monitor
unfolding advance
run_alone [] m = m
run_alone (answer ∷ answers) m = run_alone answers (advance answer m.position m)
