-- ===== src/Fsm/Routes.antt =====
-- The default route that the state machine's calls keep (fsm/path_state_fsm.cpp): which interface
-- has it.
use wifi_offload_rpi.Prelude.{
  All, List, Option, Text, [], arith, false, if◌then◌else◌, is_empty, none, refl, some, true, ℕ, ℤ,
  ◌&&◌, ◌∷◌, ◌≡◌, ◌≢◌, ◌⊎◌,
}
use wifi_offload_rpi.Types.{
  PathClassConfig, PathState, RssiThresholds, WpaEvent, path_down, path_up, state_eq, terminating,
}
use wifi_offload_rpi.Fsm.{
  PathStateFsm, is_down_state, new_fsm, next_state, on_wpa_event, run, transition,
}
use wifi_offload_rpi.Fsm.Notices.{Notice, changed, down, recording, up}

-- The route that the calls of a log leave behind: onPathUp replaces it, onPathDown removes it.
unfoldable pub installed : List Notice → Option (Text × ℕ)
installed [] = none
installed (up iface table ∷ log) = some (iface, table)
installed (down iface table ∷ log) = none
installed (changed from to iface rssi ∷ log) = installed log

-- What activeIface_ says of the route.
abbrev pub active_route : PathStateFsm → Option (Text × ℕ)
active_route fsm =
    if is_empty fsm.active_iface then none else some (fsm.active_iface, fsm.config.routing_table)

abbrev pub IsNamed : WpaEvent → Type 0
IsNamed ev = is_empty ev.iface ≡ false

-- activeIface_ and the calls made agree, and a path that is up has its route.
abbrev pub IsRouted : PathStateFsm → List Notice → Type 0
IsRouted fsm log =
    (installed log ≡ active_route fsm)
    × ((state_eq fsm.state path_up && is_empty fsm.active_iface) ≡ false)

transition-IsRouted :
    (new : PathState) (iface : Text) (rssi : ℤ) (fsm : PathStateFsm) (log : List Notice)
    → is_empty iface ≡ false
    → IsRouted fsm log
    → let (fsm', log') = transition recording new iface rssi fsm log in IsRouted fsm' log'
unfolding transition installed
transition-IsRouted new iface rssi fsm log n h = ground arith

on_wpa_event-IsRouted :
    (ev : WpaEvent) (fsm : PathStateFsm) (log : List Notice)
    → IsNamed ev
    → IsRouted fsm log
    → let (fsm', log') = on_wpa_event recording ev fsm log in IsRouted fsm' log'
unfolding on_wpa_event
on_wpa_event-IsRouted ev fsm log n h =
    transition-IsRouted (next_state fsm.state ev fsm.config.rssi) ev.iface ev.rssi fsm log n h

run-IsRouted :
    (evs : List WpaEvent) (fsm : PathStateFsm) (log : List Notice)
    → All IsNamed evs
    → IsRouted fsm log
    → let (fsm', log') = run recording evs fsm log in IsRouted fsm' log'
unfolding run
run-IsRouted [] fsm log n h = h
run-IsRouted (ev ∷ evs) fsm log n h =
    run-IsRouted evs _ _ n.1 (on_wpa_event-IsRouted ev fsm log n.0 h)

-- After any events that name their interface, the route that the calls left behind is the one of
-- activeIface_ in the class's table (none if activeIface_ is empty), and in PathUp there is one.
pub run-new_fsm-IsRouted :
    (config : PathClassConfig) (evs : List WpaEvent)
    → All IsNamed evs
    → let (fsm, log) = run recording evs (new_fsm config) [] in
      (installed log ≡ active_route fsm)
      × ((state_eq fsm.state path_up && is_empty fsm.active_iface) ≡ false)
unfolding new_fsm installed
run-new_fsm-IsRouted config evs n = run-IsRouted evs _ [] n (refl, refl)

abbrev pub IsAlive : WpaEvent → Type 0
IsAlive ev = ev.type ≢ terminating

-- A path that is down has no route.
abbrev IsCleared : PathStateFsm → Type 0
IsCleared fsm = is_down_state fsm.state ≡ true → fsm.active_iface ≡ []

-- Without Terminating, PathDown is the only way out of a live state into one that is down.
pub down_entry :
    (s : PathState) (ev : WpaEvent) (t : RssiThresholds)
    → IsAlive ev
    → is_down_state (next_state s ev t) ≡ true
    → (is_down_state s ≡ true) ⊎ (next_state s ev t ≡ path_down)
unfolding next_state is_down_state
down_entry s ev t a h = ground arith

transition-IsCleared :
    (new : PathState) (iface : Text) (rssi : ℤ) (fsm : PathStateFsm) (log : List Notice)
    → (is_down_state new ≡ true → (is_down_state fsm.state ≡ true) ⊎ (new ≡ path_down))
    → IsCleared fsm
    → IsCleared (transition recording new iface rssi fsm log).0
unfolding transition is_down_state
transition-IsCleared new iface rssi fsm log d h = ground arith

on_wpa_event-IsCleared :
    (ev : WpaEvent) (fsm : PathStateFsm) (log : List Notice)
    → IsAlive ev
    → IsCleared fsm
    → IsCleared (on_wpa_event recording ev fsm log).0
unfolding on_wpa_event
on_wpa_event-IsCleared ev fsm log a h =
    transition-IsCleared (next_state fsm.state ev fsm.config.rssi) ev.iface ev.rssi fsm log
      (down_entry fsm.state ev fsm.config.rssi a) h

run-IsCleared :
    (evs : List WpaEvent) (fsm : PathStateFsm) (log : List Notice)
    → All IsAlive evs
    → IsCleared fsm
    → IsCleared (run recording evs fsm log).0
unfolding run
run-IsCleared [] fsm log a h = h
run-IsCleared (ev ∷ evs) fsm log a h =
    run-IsCleared evs _ _ a.1 (on_wpa_event-IsCleared ev fsm log a.0 h)

-- As long as wpa_supplicant does not announce its end, a path that is not PathUp or PathDegraded
-- has no route installed.
pub run-new_fsm-IsCleared :
    (config : PathClassConfig) (evs : List WpaEvent)
    → All IsNamed evs
    → All IsAlive evs
    → is_down_state (run recording evs (new_fsm config) []).0.state ≡ true
    → installed (run recording evs (new_fsm config) []).1 ≡ none
run-new_fsm-IsCleared config evs n a d = ground (
  arith,
  run-new_fsm-IsRouted config evs n,
  run-IsCleared evs (new_fsm config) [] a (λ _. unfold new_fsm in refl) d,
)
