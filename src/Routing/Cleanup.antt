-- ===== src/Routing/Cleanup.antt =====
-- routing/routing_policy_manager.cpp, cleanup: what the daemon takes back when it ends.
use wifi_offload_rpi.Prelude.{List}
use wifi_offload_rpi.Types.{PathClassConfig}
use wifi_offload_rpi.Routing.Netlink.{Netlink, remove_ip_rules}
use wifi_offload_rpi.Routing.Iptables.{Iptc, remove_drop_rules, remove_iptables_mark_rules}
use wifi_offload_rpi.Routing.Cgroups.{Files, remove_cgroups}

-- What the routing manager works on: the rules and routes, the tables of iptables, the cgroups.
pub record Host (netlink : Netlink) (iptc : Iptc) (files : Files) : Type 0 where
  pub net : netlink.Net
  pub tables : iptc.Kernel
  pub disk : files.Disk

module _ (netlink : Netlink) (iptc : Iptc) (files : Files) where
  unfoldable pub cleanup : List PathClassConfig → Host netlink iptc files → Host netlink iptc files
  cleanup classes host = record {
    net = remove_ip_rules netlink classes host.net;
    tables = remove_iptables_mark_rules iptc (remove_drop_rules iptc host.tables);
    disk = remove_cgroups files classes host.disk;
  }
