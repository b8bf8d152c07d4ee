-- ===== src/Wpa/Monitor.antt =====
-- wpa/wpa_monitor.cpp, WpaMonitor: the poll loop on one connection and the reconnect loop with its
-- backoff. What poll, wpa_ctrl_recv, wpa_ctrl_open and wpa_ctrl_attach answer is a list; the end of
-- a list is the check of the stop flag that finds it set.
pub mod Backoff
pub mod Delivery
use mathlib.Core.List
use wifi_offload_rpi.Prelude.{
  ℕ, ◌+◌, ◌*◌, Bool, true, false, List, [], ◌∷◌, Text, Option, none, some, min, if◌then◌else◌,
}
use wifi_offload_rpi.Types.{
  WpaEvent, WpaEventType, connected, disconnected, signal_change, terminating, other,
}
use wifi_offload_rpi.Wpa.Parse.{parse_event}

-- One round of the poll loop: an error, EINTR, the timeout, no POLLIN among the events, or a
-- message, which wpa_ctrl_recv may fail to read.
pub data PollResult : Type 0 where
  poll_error poll_interrupted poll_timeout poll_no_input recv_error : PollResult
  received : Text → PollResult

-- One round of the reconnect loop. `stop_seen`: the stop flag is set by the checks before the sleep.
pub data Outcome : Type 0 where
  open_failed attach_failed : Outcome
  attached : List PollResult → Outcome

pub record Attempt : Type 0 where
  pub outcome : Outcome
  pub stop_seen : Bool

abbrev pub initial_backoff : ℕ
initial_backoff = 1

abbrev pub max_backoff : ℕ
max_backoff = 30

-- The `switch` sets exitLoop for Terminating alone.
abbrev pub exits_loop : WpaEventType → Bool
exits_loop terminating = true
exits_loop connected = false
exits_loop disconnected = false
exits_loop signal_change = false
exits_loop other = false

module _ {W : Type 0} (callback : Option (WpaEvent → W → W)) (iface : Text) where
  call_back : Option (WpaEvent → W → W) → WpaEvent → W → W
  call_back none ev w = w
  call_back (some f) ev w = f ev w

  unfoldable pub handle_event : Text → W → W × Bool
  unfolding call_back
  handle_event raw w =
      let ev = parse_event raw iface in (call_back callback ev w, exits_loop ev.type)

  unfoldable pub run_event_loop : List PollResult → W → W
  run_event_loop [] w = w
  run_event_loop (poll_error ∷ rest) w = w
  run_event_loop (poll_interrupted ∷ rest) w = run_event_loop rest w
  run_event_loop (poll_timeout ∷ rest) w = run_event_loop rest w
  run_event_loop (poll_no_input ∷ rest) w = run_event_loop rest w
  run_event_loop (recv_error ∷ rest) w = w
  run_event_loop (received raw ∷ rest) w =
      let (w', done) = handle_event raw w in
      let later = run_event_loop rest w' in if done then w' else later

  -- The world and the backoff after one round, before its sleep.
  connect : Outcome → ℕ → W → W × ℕ
  connect open_failed backoff w = (w, backoff)
  connect attach_failed backoff w = (w, backoff)
  connect (attached polls) backoff w = (run_event_loop polls w, initial_backoff)

  -- The reconnect loop: the world that the callbacks leave, and the sleeps, in seconds.
  unfoldable pub reconnect : List Attempt → ℕ → W → W × List ℕ
  unfolding connect
  reconnect [] backoff w = (w, [])
  reconnect (a ∷ rest) backoff w =
      let (w', held) = connect a.outcome backoff w in
      let (w'', sleeps) = reconnect rest (min (held * 2) max_backoff) w' in
      if a.stop_seen then (w', []) else (w'', held ∷ sleeps)

  unfoldable pub start : List Attempt → W → W × List ℕ
  start attempts w = reconnect attempts initial_backoff w
