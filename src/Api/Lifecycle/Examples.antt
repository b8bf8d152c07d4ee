-- ===== src/Api/Lifecycle/Examples.antt =====
-- A server on one socket, with a client that registers and one that only connects.
use wifi_offload_rpi.Prelude.{
  List, Text, [], codes, false, if◌then◌else◌, map, none, pos, refl, some, text_eq, true, ℕ, ◌++◌,
  ◌+◌, ◌∷◌, ◌≡◌,
}
use wifi_offload_rpi.Types.{PathClassConfig, default_rssi, idle}
use wifi_offload_rpi.Api.Lifecycle.Stopping.{stop-start, times}
use wifi_offload_rpi.Api.Lifecycle.Descriptors.{closed_of, held, is_ok, opened_of, start-Kept}
use wifi_offload_rpi.Api.Wire.{ApiMsg, array_string, empty_msg, to_array}
use wifi_offload_rpi.Api.Server.{
  Env, Server, find_class, handle_client, handle_register, new_server,
}
use wifi_offload_rpi.Api.Server.Invariant.{run}
use wifi_offload_rpi.Api.Lifecycle.{
  Listener, Ready, StartAnswers, Wait, interrupted, new_listener, ready, run_loop, start, stop,
}
use wifi_offload_rpi.Api.Lifecycle.Loop.{loop_events, run_loop-run}
use mathlib.Core.List.{reverse}

abbrev path : Text
path = codes "/var/run/netservice/control.sock"

-- epoll does not take the eventfd.
abbrev refusing : StartAnswers
refusing = record {
  socket = some 3;
  bind_ok = true;
  listen_ok = true;
  epoll_create = some 4;
  eventfd = some 5;
  add_listen_ok = true;
  add_wakeup_ok = false;
}

start-Kept_example :
    let (r, (l, calls)) = start path refusing new_listener in
    (l.running ≡ is_ok r)
    × (held l ≡ (if is_ok r then opened_of calls else []))
    × (closed_of calls ≡ (if is_ok r then [] else reverse (opened_of calls)))
start-Kept_example = start-Kept path refusing

refusing_closes : closed_of (start path refusing new_listener).1.1 ≡ 5 ∷ 4 ∷ 3 ∷ []
unfolding start
refusing_closes = refl

abbrev up : Listener
up = record { listen_fd = some 3; epoll_fd = some 4; wakeup_fd = some 5; running = true }

abbrev lte : PathClassConfig
lte = record {
  id = codes "lte";
  classid = 0x00100002;
  cgroup_path = codes "/sys/fs/cgroup/net_cls/lte";
  interfaces = codes "wwan0" ∷ [];
  mptcp_enabled = false;
  routing_table = 200;
  mark = 0x20;
  strict_isolation = false;
  rssi = default_rssi;
}

abbrev env : Env
env = record { can_open = λ p. true; reachable = λ fd. true }

abbrev hello : ApiMsg
hello = record empty_msg { type = 1; pid = pos 42; class_id = to_array (codes "lte") }

abbrev entry : ℕ → Ready
entry fd = record {
  fd = fd;
  hung_up = false;
  input = true;
  env = env;
  received = some hello;
  accepts = some (6, true) ∷ some (7, true) ∷ none ∷ [];
}

-- Two clients connect, the first registers; then stop wakes the loop.
abbrev waits : List Wait
waits = ready (entry 3 ∷ []) ∷ interrupted ∷ ready (entry 6 ∷ entry 5 ∷ entry 7 ∷ []) ∷ []

run_loop-run_example :
    (run_loop 5 3 waits (new_server (lte ∷ []))).0
    ≡ run (loop_events 5 3 waits) (new_server (lte ∷ []))
run_loop-run_example = run_loop-run 5 3 waits (new_server (lte ∷ []))

abbrev served : Server
served = record {
  class_states =
      record {
        class_id = codes "lte";
        cgroup_path = codes "/sys/fs/cgroup/net_cls/lte";
        state = idle;
        active_iface = [];
        rssi = pos 0;
      }
      ∷ [];
  registry = record { fd = 6; pid = pos 42; handle = 1; class_id = codes "lte" } ∷ [];
  next_handle = 2;
}

served_example : (run_loop 5 3 waits (new_server (lte ∷ []))).0 ≡ served
unfolding run_loop handle_client handle_register new_server find_class text_eq array_string to_array
served_example = refl

abbrev accepting : StartAnswers
accepting = record refusing { add_wakeup_ok = true }

stop-start_example :
    let (r, (l, calls)) = start path accepting new_listener in
    let ((l', s'), calls') = stop path l served in
    (times 6 (closed_of (calls ++ calls'))
      ≡ times 6 (opened_of calls)
        + (if is_ok r then times 6 (map (λ e. e.fd) served.registry) else 0))
    × (held l' ≡ [])
    × (stop path l' s' ≡ ((l', s'), []))
stop-start_example = stop-start path accepting served 6
