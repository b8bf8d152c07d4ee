-- ===== src/Daemon/Examples.antt =====
-- A kernel with two interfaces, and a daemon with one class.
use wifi_offload_rpi.Prelude.{
  All, List, [], arith, codes, false, if◌then◌else◌, map, negsuc, pos, refl, some, text_eq, true,
  ◌∷◌, ◌≡◌,
}
use wifi_offload_rpi.Types.{PathClassConfig, WpaEvent, connected, default_rssi}
use wifi_offload_rpi.Config.Hex.{digit_in, is_hex_start, read_digits, stoul_hex}
use wifi_offload_rpi.Routing.Gateway.{
  gateway_of, htonl, lines, query_gateway_for_iface, query_lines, row_of,
}
use wifi_offload_rpi.Routing.Netlink.{
  Message, Netlink, accepted, add_default_route, add_op, create_flag, outcome, replace_flag,
  route_message,
}
use wifi_offload_rpi.Mptcp.{Genl, add_endpoints}
use wifi_offload_rpi.Fsm.{new_fsm, on_wpa_event}
use wifi_offload_rpi.Config.Schema.{IsLoaded}
use wifi_offload_rpi.Daemon.{
  Happening, Surroundings, callbacks_of, deliver, delivers, hangs_up, new_fsms, new_world, run,
}
use wifi_offload_rpi.Daemon.Agreement.{IsCached, run-new_fsms-IsCached}

-- The kernel takes every message; its state lists those of libmnl's route sockets.
abbrev netlink : Netlink
netlink = record {
  Net = List Message;
  exchange = λ m sent. (accepted, m ∷ sent);
  if_nametoindex = λ name n. if text_eq name (codes "wlan0") then 3 else 0;
}

abbrev genl : Genl (List Message)
genl = record {
  get_family = λ n. (accepted, (some 30, n));
  command = λ family c n. (accepted, n);
  getifaddrs = λ n. some (record { name = codes "wlan0"; ipv4 = some 0x0201A8C0 } ∷ []);
}

abbrev pub multipath : PathClassConfig
multipath = record {
  id = codes "multipath";
  classid = 0x00100001;
  cgroup_path = codes "/sys/fs/cgroup/net_cls/multipath";
  interfaces = codes "wlan0" ∷ [];
  mptcp_enabled = true;
  routing_table = 100;
  mark = 0x10;
  strict_isolation = false;
  rssi = default_rssi;
}

pub multipath-IsLoaded : IsLoaded (multipath ∷ [])
multipath-IsLoaded = record {
  any_class = refl;
  well_formed = (
    record {
      named = refl;
      classid_word = (omega arith, omega arith);
      located = refl;
      attached = refl;
      interfaces_named = (refl, tt);
      table_range = (omega arith, omega arith);
      mark_word = (omega arith, omega arith);
      warn_above_drop = omega arith;
    },
    tt,
  );
  ids_apart = (tt, tt);
  classids_apart = (tt, tt);
  marks_apart = (tt, tt);
  tables_apart = (tt, tt);
}

abbrev pub around : Surroundings
around = record {
  env = record { can_open = λ path. true; reachable = λ fd. true };
  proc_net_route = some (codes "Iface\tDestination\tGateway\nwlan0\t00000000\t0101A8C0\t0003\n");
}

abbrev pub up : WpaEvent
up = record {
  type = connected;
  raw = [];
  iface = codes "wlan0";
  rssi = negsuc 59;
  avg_rssi = pos 0;
}

abbrev steps : List Happening
steps = delivers around 0 up ∷ hangs_up around.env 7 ∷ []

-- The file gives the gateway 192.168.1.1 as the kernel prints it; the message has its bytes swapped.
up_messages :
    (run netlink genl 64
      (multipath ∷ [])
      steps
      (new_fsms netlink genl 64 (multipath ∷ []))
      (new_world netlink genl 64 (multipath ∷ []) [])).1.net
    ≡ route_message add_op (create_flag ∷ replace_flag ∷ []) (some 0xC0A80101) 3 100 ∷ []
unfolding run new_fsms new_world text_eq deliver callbacks_of on_wpa_event add_endpoints
    add_default_route query_gateway_for_iface new_fsm query_lines gateway_of lines row_of htonl
    stoul_hex read_digits digit_in is_hex_start outcome
up_messages = refl

run-new_fsms-IsCached_example :
    let (fsms, w) =
      run netlink genl 64
        (multipath ∷ [])
        steps
        (new_fsms netlink genl 64 (multipath ∷ []))
        (new_world netlink genl 64 (multipath ∷ []) []) in
    (map (λ fsm. fsm.config.id) fsms ≡ codes "multipath" ∷ []) × All (IsCached w.server) fsms
run-new_fsms-IsCached_example =
    run-new_fsms-IsCached netlink genl 64 (multipath ∷ []) [] steps multipath-IsLoaded
