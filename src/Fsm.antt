-- ===== src/Fsm.antt =====
-- fsm/path_state_fsm.hpp and path_state_fsm.cpp: the state machine of one path class.
-- The callbacks are functions on a world `W`; an empty std::function is `none`.
pub mod Table
pub mod Notices
pub mod Routes
mod Examples
use wifi_offload_rpi.Prelude.{
  ℕ, Bool, ◌&&◌, ◌||◌, not, Option, none, some, List, [], ◌∷◌, ℤ, leb_ℤ, ltb_ℤ, Text, is_empty,
  if◌then◌else◌,
}
use wifi_offload_rpi.Types.{
  PathState, idle, scanning, connecting, path_up, path_degraded, path_down, state_eq,
  RssiThresholds, PathClassConfig, WpaEventType, connected, disconnected, signal_change,
  terminating, other, WpaEvent,
}

unfoldable pub is_down_state : PathState → Bool
is_down_state s =
    state_eq s idle || state_eq s path_down || state_eq s scanning || state_eq s connecting

on_connected : PathState → ℤ → RssiThresholds → PathState
unfolding is_down_state
on_connected current rssi t =
    if is_down_state current
    then (if leb_ℤ t.warn rssi
        then path_up
        else if leb_ℤ t.drop rssi
        then path_degraded
        else path_down)
    else current

on_signal_change : PathState → ℤ → RssiThresholds → PathState
on_signal_change current rssi t =
    if state_eq current path_up
    then (if ltb_ℤ rssi t.warn then path_degraded else path_up)
    else if state_eq current path_degraded
    then (if leb_ℤ t.warn rssi
        then path_up
        else if ltb_ℤ rssi t.drop
        then path_down
        else path_degraded)
    else current

-- The `switch` of nextState.
unfoldable pub next_state_on : WpaEventType → PathState → ℤ → RssiThresholds → PathState
unfolding on_connected on_signal_change
next_state_on terminating current rssi t = idle
next_state_on disconnected current rssi t = path_down
next_state_on connected current rssi t = on_connected current rssi t
next_state_on signal_change current rssi t = on_signal_change current rssi t
next_state_on other current rssi t = current

unfoldable pub next_state : PathState → WpaEvent → RssiThresholds → PathState
unfolding next_state_on
next_state current ev thresholds = next_state_on ev.type current ev.rssi thresholds

pub record Callbacks (W : Type 0) : Type 0 where
  pub on_path_up : Option (Text → ℕ → W → W)
  pub on_path_down : Option (Text → ℕ → W → W)
  pub on_state_changed : Option (PathState → PathState → Text → ℤ → W → W)

pub record PathStateFsm : Type 0 where
  pub config : PathClassConfig
  pub state : PathState
  pub active_iface : Text

unfoldable pub new_fsm : PathClassConfig → PathStateFsm
new_fsm config = record { config = config; state = idle; active_iface = [] }

module _ {W : Type 0} (cb : Callbacks W) where
  call_route : Option (Text → ℕ → W → W) → Text → ℕ → W → W
  call_route none iface table w = w
  call_route (some f) iface table w = f iface table w

  notify :
      Option (PathState → PathState → Text → ℤ → W → W) → PathState → PathState → Text → ℤ → W → W
  notify none from to iface rssi w = w
  notify (some f) from to iface rssi w = f from to iface rssi w

  -- The two branches on the state that is entered.
  side_effects : PathState → PathState → Text → PathStateFsm → W → PathStateFsm × W
  unfolding call_route
  side_effects prev new iface fsm w =
      if state_eq new path_up
      then (
        record fsm { active_iface = iface },
        call_route cb.on_path_up iface fsm.config.routing_table w,
      )
      else if state_eq new path_down && (state_eq prev path_up || state_eq prev path_degraded)
      then (
        record fsm { active_iface = [] },
        (if not (is_empty fsm.active_iface)
            then call_route cb.on_path_down fsm.active_iface fsm.config.routing_table w
            else w),
      )
      else (fsm, w)

  unfoldable pub transition : PathState → Text → ℤ → PathStateFsm → W → PathStateFsm × W
  unfolding side_effects notify
  transition new iface rssi fsm w =
      if state_eq new fsm.state
      then (fsm, w)
      else (let (fsm', w') = side_effects fsm.state new iface (record fsm { state = new }) w in
          (fsm', notify cb.on_state_changed fsm.state new iface rssi w'))

  unfoldable pub on_wpa_event : WpaEvent → PathStateFsm → W → PathStateFsm × W
  unfolding transition next_state
  on_wpa_event ev fsm w =
      transition (next_state fsm.state ev fsm.config.rssi) ev.iface ev.rssi fsm w

  -- The events of one monitor, in the order in which its thread delivers them.
  unfoldable pub run : List WpaEvent → PathStateFsm → W → PathStateFsm × W
  unfolding on_wpa_event
  run [] fsm w = (fsm, w)
  run (ev ∷ evs) fsm w = let (fsm', w') = on_wpa_event ev fsm w in run evs fsm' w'
