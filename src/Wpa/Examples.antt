-- ===== src/Wpa/Examples.antt =====
-- The monitor on concrete messages and rounds.
use wifi_offload_rpi.Prelude.{
  List, [], arith, codes, false, map, negsuc, none, refl, some, true, ℕ, ◌+◌, ◌∷◌, ◌≡◌,
}
use wifi_offload_rpi.Types.{WpaEvent, connected, disconnected, other, signal_change}
use wifi_offload_rpi.Wpa.Parse.{parse_event}
use wifi_offload_rpi.Wpa.Parse.SignalChange.{parse_event-signal_report, signal_report}
use wifi_offload_rpi.Wpa.Monitor.{
  Attempt, attach_failed, attached, handle_event, open_failed, poll_error, poll_timeout, received,
  reconnect, run_event_loop, start,
}
use wifi_offload_rpi.Wpa.Monitor.Backoff.{backoff_of, start-streaks, streaks}
use wifi_offload_rpi.Wpa.Monitor.Delivery.{delivered, start-delivered}
use mathlib.Core.List.{foldl}

connected_type :
    (parse_event (codes "<3>CTRL-EVENT-CONNECTED - Connection to 00:11") (codes "wlan0")).type
    ≡ connected
unfolding parse_event
connected_type = refl

bare_type :
    (parse_event (codes "CTRL-EVENT-DISCONNECTED bssid=00:11") (codes "wlan0")).type ≡ disconnected
unfolding parse_event
bare_type = refl

scan_type : (parse_event (codes "<3>CTRL-EVENT-SCAN-RESULTS ") (codes "wlan0")).type ≡ other
unfolding parse_event
scan_type = refl

signal_values :
    let ev =
      parse_event (codes "<3>CTRL-EVENT-SIGNAL-CHANGE rssi=-65 avg_rssi=-67") (codes "wlan0") in
    (ev.type ≡ signal_change) × (ev.rssi ≡ negsuc 64) × (ev.avg_rssi ≡ negsuc 66)
unfolding parse_event
signal_values = (refl, refl, refl)

parse_event-signal_report_example :
    parse_event (signal_report (codes "3") (negsuc 64) (negsuc 66)) (codes "wlan0") ≡ record {
      type = signal_change;
      raw = signal_report (codes "3") (negsuc 64) (negsuc 66);
      iface = codes "wlan0";
      rssi = negsuc 64;
      avg_rssi = negsuc 66;
    }
parse_event-signal_report_example =
    parse_event-signal_report (codes "3") (codes "wlan0") (negsuc 64) (negsuc 66) (refl, tt)
      (omega arith) (omega arith)

abbrev rounds : List Attempt
rounds =
    record { outcome = open_failed; stop_seen = false }
    ∷ record { outcome = attach_failed; stop_seen = false }
    ∷ record {
      outcome = attached (
          poll_timeout
          ∷ received (codes "<3>CTRL-EVENT-CONNECTED ")
          ∷ received (codes "<3>CTRL-EVENT-TERMINATING ")
          ∷ received (codes "<3>lost")
          ∷ []);
      stop_seen = false;
    }
    ∷ record { outcome = open_failed; stop_seen = false }
    ∷ record { outcome = attached (poll_error ∷ []); stop_seen = true }
    ∷ []

rounds_sleeps : (start {W = ℕ} none (codes "wlan0") rounds 0).1 ≡ 1 ∷ 2 ∷ 1 ∷ 2 ∷ []
unfolding start reconnect run_event_loop handle_event parse_event
rounds_sleeps = refl

start-streaks_example :
    (start {W = ℕ} none (codes "wlan0") rounds 0).1 ≡ map backoff_of (streaks 0 rounds)
start-streaks_example = start-streaks none (codes "wlan0") rounds 0

abbrev count_event : WpaEvent → ℕ → ℕ
count_event ev n = n + 1

start-delivered_example :
    (start (some count_event) (codes "wlan0") rounds 0).0
    ≡ foldl (λ w' ev. count_event ev w') 0 (delivered (codes "wlan0") rounds)
start-delivered_example = start-delivered count_event (codes "wlan0") rounds 0
