-- ===== src/Fsm/Examples.antt =====
-- Runs of the state machine on the class and the events of tests/test_path_state_fsm.cpp.
use wifi_offload_rpi.Prelude.{
  List, [], arith, codes, false, is_empty, negsuc, pos, refl, true, ℤ, ◌&&◌, ◌↔◌, ◌∷◌, ◌≡◌,
}
use wifi_offload_rpi.Types.{
  PathClassConfig, WpaEvent, WpaEventType, connected, default_rssi, idle, path_degraded, path_down,
  path_up, signal_change, state_eq,
}
use wifi_offload_rpi.Fsm.{new_fsm, next_state, run}
use wifi_offload_rpi.Fsm.Table.{Row, next_state_iff_Row}
use wifi_offload_rpi.Fsm.Notices.{
  IsChain, changed, down, recording, reported, run-new_fsm-IsTold, up,
}
use wifi_offload_rpi.Fsm.Routes.{active_route, installed, run-new_fsm-IsRouted}

abbrev multipath : PathClassConfig
multipath = record {
  id = codes "multipath";
  classid = 0x00100001;
  cgroup_path = codes "/sys/fs/cgroup/net_cls/multipath";
  interfaces = codes "wlan0" ∷ [];
  mptcp_enabled = true;
  routing_table = 100;
  mark = 0x10;
  strict_isolation = false;
  rssi = default_rssi;
}

abbrev event : WpaEventType → ℤ → WpaEvent
event k r = record { type = k; raw = []; iface = codes "wlan0"; rssi = r; avg_rssi = pos 0 }

abbrev fades : List WpaEvent
fades =
    event connected (negsuc 59)
    ∷ event signal_change (negsuc 79)
    ∷ event signal_change (negsuc 64)
    ∷ event signal_change (negsuc 79)
    ∷ event signal_change (negsuc 89)
    ∷ []

fades_log :
    (run recording fades (new_fsm multipath) []).1
    ≡ changed path_degraded path_down (codes "wlan0") (negsuc 89)
      ∷ down (codes "wlan0") 100
      ∷ changed path_up path_degraded (codes "wlan0") (negsuc 79)
      ∷ changed path_degraded path_up (codes "wlan0") (negsuc 64)
      ∷ up (codes "wlan0") 100
      ∷ changed path_up path_degraded (codes "wlan0") (negsuc 79)
      ∷ changed idle path_up (codes "wlan0") (negsuc 59)
      ∷ up (codes "wlan0") 100
      ∷ []
unfolding run new_fsm
fades_log = refl

next_state_iff_Row_example :
    Row default_rssi idle connected (negsuc 79) path_degraded
    ↔ (path_degraded ≡ next_state idle (event connected (negsuc 79)) default_rssi)
next_state_iff_Row_example =
    next_state_iff_Row default_rssi idle path_degraded (event connected (negsuc 79)) (omega arith)

run-new_fsm-IsTold_example :
    let (fsm, log) = run recording fades (new_fsm multipath) [] in
    (reported log ≡ fsm.state) × IsChain log
run-new_fsm-IsTold_example = run-new_fsm-IsTold multipath fades

run-new_fsm-IsRouted_example :
    let (fsm, log) = run recording fades (new_fsm multipath) [] in
    (installed log ≡ active_route fsm)
    × ((state_eq fsm.state path_up && is_empty fsm.active_iface) ≡ false)
run-new_fsm-IsRouted_example =
    run-new_fsm-IsRouted multipath fades (refl, (refl, (refl, (refl, (refl, tt)))))
