-- ===== src/Daemon/Main/Leftover/Examples.antt =====
-- The daemon ends while its path is up.
use wifi_offload_rpi.Prelude.{Text, [], codes, refl, some, true, ◌==◌, ◌∷◌, ◌≡◌}
use wifi_offload_rpi.Api.Lifecycle.{new_listener}
use wifi_offload_rpi.Config.Examples.{json}
use wifi_offload_rpi.Routing.Cgroups.Examples.{toy_files}
use wifi_offload_rpi.Routing.Examples.{arm64}
use wifi_offload_rpi.Routing.Iptables.Examples.{installed, tables}
use wifi_offload_rpi.Daemon.{World, new_world}
use wifi_offload_rpi.Daemon.Examples.{multipath}
use wifi_offload_rpi.Daemon.Main.{Course, Machine, Platform, finish}
use wifi_offload_rpi.Daemon.Main.Leftover.{RoutesApart, finish-default_of}
use wifi_offload_rpi.Daemon.Routes.Examples.{Routes, genl, wlan_laws, wlan_only}

abbrev platform : Platform
platform = record {
  netlink = wlan_only;
  genl = genl;
  iptc = tables;
  files = toy_files;
  json = json;
  word_bits = 64;
  layout = arm64;
}

wlan_apart : RoutesApart wlan_only genl wlan_laws
unfolding wlan_laws
wlan_apart = record {
  by_old_rule = λ mark table table' net. refl;
  by_get_family = λ table net. refl;
  by_flush = λ family table net. refl;
}

abbrev course : Course platform
course = record {
  answers = record {
    socket = some 3;
    bind_ok = true;
    listen_ok = true;
    epoll_create = some 4;
    eventfd = some 5;
    add_listen_ok = true;
    add_wakeup_ok = true;
  };
  early = [];
  later = [];
}

-- The path of the class has its route in table 100.
abbrev world : World Routes
world = record {
  net = λ table. table == 100;
  server = (new_world wlan_only genl 64 (multipath ∷ []) (λ table. table == 100)).server;
  effects = [];
}

abbrev machine : Machine platform
machine = record { net = λ table. table == 100; tables = installed; disk = ([], []) }

abbrev control_socket : Text
control_socket = codes "/run/control.sock"

finish-default_of_example :
    wlan_laws.default_of 100
      (finish platform control_socket course
        (multipath ∷ [])
        new_listener
        world
        machine).machine.net
    ≡ wlan_laws.default_of 100 world.net
finish-default_of_example =
    finish-default_of platform control_socket course (multipath ∷ []) wlan_laws wlan_apart 100
      new_listener world machine

-- It is still there.
left : wlan_laws.default_of 100 world.net ≡ some (codes "wlan0")
unfolding wlan_laws
left = refl
