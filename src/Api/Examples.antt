-- ===== src/Api/Examples.antt =====
-- The server with one class and two consumers.
use wifi_offload_rpi.Prelude.{
  [], any, arith, codes, false, find_if, keep, not, pos, refl, some, text_eq, true, ◌++◌, ◌==◌, ◌∷◌,
  ◌≡◌, ◌⊎◌,
}
use wifi_offload_rpi.Types.{PathClassConfig, default_rssi, idle, path_up}
use wifi_offload_rpi.Api.Server.Effects.{closed_fds, sent_to}
use wifi_offload_rpi.Api.Wire.{ApiMsg, array_string, empty_msg}
use wifi_offload_rpi.Api.Server.{
  ConsumerEntry, Env, Server, broadcast_path_event, find_class, handle_client, handle_register,
  handle_unregister, has_handle, is_dead, is_for, new_server, remove_client,
}
use wifi_offload_rpi.Api.Server.Registry.{without_fd}
use wifi_offload_rpi.Api.Server.Invariant.{
  IsValid, hung_up, readable, run, run-new_server-IsValid, step,
}
use wifi_offload_rpi.Api.Server.Broadcast.{
  broadcast_path_event_lem, fds_of, remove_client_closes_again,
}
use wifi_offload_rpi.Api.Server.Replies.{expected, handle_client-replies, replies}
use wifi_offload_rpi.Api.Server.Registration.{entry_of, handle_unregister-handle_register}

abbrev lte : PathClassConfig
lte = record {
  id = codes "lte_b2c";
  classid = 0x00100002;
  cgroup_path = codes "/sys/fs/cgroup/net_cls/lte_b2c";
  interfaces = codes "wwan0" ∷ [];
  mptcp_enabled = false;
  routing_table = 200;
  mark = 0x20;
  strict_isolation = false;
  rssi = default_rssi;
}

-- Descriptor 8 cannot be reached.
abbrev env : Env
env = record { can_open = λ path. true; reachable = λ fd. fd == 7 }

abbrev hello : ApiMsg
hello = record empty_msg { type = 1; pid = pos 42; class_id = codes "lte_b2c" ++ 0 ∷ [] }

abbrev busy : Server
busy = record {
  class_states =
      record {
        class_id = codes "lte_b2c";
        cgroup_path = codes "/sys/fs/cgroup/net_cls/lte_b2c";
        state = idle;
        active_iface = [];
        rssi = pos 0;
      }
      ∷ [];
  registry =
      record { fd = 7; pid = pos 42; handle = 1; class_id = codes "lte_b2c" }
      ∷ record { fd = 8; pid = pos 43; handle = 2; class_id = codes "lte_b2c" }
      ∷ [];
  next_handle = 3;
}

busy_registered :
    (step env
      (readable 8 (some (record hello { pid = pos 43 })))
      (step env (readable 7 (some hello)) (new_server (lte ∷ []))).0).0
    ≡ busy
unfolding step handle_client handle_register new_server find_class text_eq array_string
busy_registered = refl

busy-IsValid : IsValid busy
unfolding text_eq
busy-IsValid = record {
  ascending = omega arith;
  distinct = ((refl, tt), (tt, tt));
  known = (refl, (refl, tt));
}

run-new_server-IsValid_example :
    IsValid (run ((env, readable 7 (some hello)) ∷ (env, hung_up 7) ∷ []) (new_server (lte ∷ [])))
run-new_server-IsValid_example = run-new_server-IsValid (lte ∷ []) _ (omega arith)

broadcast_path_event_lem_example :
    let (s', effects) =
      broadcast_path_event env (codes "lte_b2c") path_up (codes "wwan0") (pos 0) busy in
    (sent_to effects ≡ fds_of (keep (is_for (codes "lte_b2c")) busy.registry))
    × (s'.registry ≡ keep (λ e. not (is_dead env (codes "lte_b2c") e)) busy.registry)
    × (closed_fds effects ≡ fds_of (keep (is_dead env (codes "lte_b2c")) busy.registry))
broadcast_path_event_lem_example =
    broadcast_path_event_lem env (codes "lte_b2c") (codes "wwan0") path_up (pos 0) busy busy-IsValid

abbrev dead_entry : ConsumerEntry
dead_entry = record { fd = 8; pid = pos 43; handle = 2; class_id = codes "lte_b2c" }

remove_client_closes_again_example :
    let (s', effects) =
      broadcast_path_event env (codes "lte_b2c") path_up (codes "wwan0") (pos 0) busy in
    let (s'', effects') = remove_client env 8 s' in
    (any (λ fd. fd == 8) (closed_fds effects) ≡ true)
    × (closed_fds effects' ≡ 8 ∷ [])
    × (s''.registry ≡ s'.registry)
unfolding text_eq
remove_client_closes_again_example =
    remove_client_closes_again env env (codes "lte_b2c") (codes "wwan0") path_up (pos 0) busy
      dead_entry busy-IsValid refl

handle_client-replies_example :
    let (s', effects) = handle_client env 9 (some hello) busy in
    let (type, error) = expected hello busy in
    (replies effects ≡ (9, type, error) ∷ []) × ((error ≡ 0) ⊎ (s' ≡ busy))
handle_client-replies_example = handle_client-replies env 9 hello busy

handle_unregister-handle_register_example :
    let s' = (handle_register env 9 hello busy).0 in
    (find_if (has_handle 3) s'.registry ≡ some (entry_of 9 hello busy))
    × ((handle_unregister env 7 (record hello { handle = 3 }) s').0
        ≡ record s' { registry = without_fd 9 busy.registry })
unfolding text_eq array_string
handle_unregister-handle_register_example =
    handle_unregister-handle_register env env 9 7 hello (record hello { handle = 3 }) busy
      busy-IsValid refl refl
