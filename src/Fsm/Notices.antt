-- ===== src/Fsm/Notices.antt =====
-- What the state machine tells its callbacks (fsm/path_state_fsm.cpp), as a log: the callbacks that
-- record every call.
use wifi_offload_rpi.Prelude.{List, Text, [], arith, false, refl, some, ℕ, ℤ, ◌∷◌, ◌≡◌}
use wifi_offload_rpi.Types.{PathClassConfig, PathState, WpaEvent, idle, state_eq}
use wifi_offload_rpi.Fsm.{
  Callbacks, PathStateFsm, new_fsm, next_state, on_wpa_event, run, transition,
}

pub data Notice : Type 0 where
  up : Text → ℕ → Notice
  down : Text → ℕ → Notice
  changed : PathState → PathState → Text → ℤ → Notice

-- The log, newest call first.
abbrev pub recording : Callbacks (List Notice)
recording = record {
  on_path_up = some (λ iface table log. up iface table ∷ log);
  on_path_down = some (λ iface table log. down iface table ∷ log);
  on_state_changed = some (λ from to iface rssi log. changed from to iface rssi ∷ log);
}

-- The state that the observers were last told; they start from Idle.
unfoldable pub reported : List Notice → PathState
reported [] = idle
reported (up iface table ∷ log) = reported log
reported (down iface table ∷ log) = reported log
reported (changed from to iface rssi ∷ log) = to

-- Each report leaves from the state that the one before it entered, and enters another.
abbrev pub IsChain : List Notice → Type 0
IsChain [] = Unit {0}
IsChain (up iface table ∷ log) = IsChain log
IsChain (down iface table ∷ log) = IsChain log
IsChain (changed from to iface rssi ∷ log) =
    (state_eq to from ≡ false) × (from ≡ reported log) × IsChain log

abbrev pub IsTold : PathStateFsm → List Notice → Type 0
IsTold fsm log = (reported log ≡ fsm.state) × IsChain log

transition-IsTold :
    (new : PathState) (iface : Text) (rssi : ℤ) (fsm : PathStateFsm) (log : List Notice)
    → IsTold fsm log
    → let (fsm', log') = transition recording new iface rssi fsm log in IsTold fsm' log'
unfolding transition reported
transition-IsTold new iface rssi fsm log h = ground arith

run-IsTold :
    (evs : List WpaEvent) (fsm : PathStateFsm) (log : List Notice)
    → IsTold fsm log
    → let (fsm', log') = run recording evs fsm log in IsTold fsm' log'
unfolding run
run-IsTold [] fsm log h = h
run-IsTold (ev ∷ evs) fsm log h = run-IsTold evs _ _ (
    unfold on_wpa_event in
    transition-IsTold (next_state fsm.state ev fsm.config.rssi) ev.iface ev.rssi fsm log h)

-- Whatever the events, the reports of onStateChanged form a chain from Idle in which no report
-- repeats its state, and the last report names the state that the machine is in.
pub run-new_fsm-IsTold :
    (config : PathClassConfig) (evs : List WpaEvent)
    → let (fsm, log) = run recording evs (new_fsm config) [] in
      (reported log ≡ fsm.state) × IsChain log
unfolding new_fsm reported
run-new_fsm-IsTold config evs = run-IsTold evs _ [] (refl, tt)
