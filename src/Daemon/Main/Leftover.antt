-- ===== src/Daemon/Main/Leftover.antt =====
-- The default routes when the daemon ends after a signal (main.cpp).
mod Examples
use wifi_offload_rpi.Prelude.{List, Text, refl, ℕ, ◌∙◌, ◌≡◌}
use wifi_offload_rpi.Types.{PathClassConfig}
use wifi_offload_rpi.Mptcp.Preserved.{remove_endpoints-preserves}
use wifi_offload_rpi.Routing.Netlink.Removal.{old_rule, remove_ip_rules-preserves}
use wifi_offload_rpi.Daemon.Main.{Course, Machine, Platform, finish}
use wifi_offload_rpi.Mptcp.{Genl, flush_addrs}
use wifi_offload_rpi.Routing.Netlink.{Netlink}
use wifi_offload_rpi.Routing.Netlink.Routes.{RouteLaws}
use wifi_offload_rpi.Routing.Cleanup.{cleanup}
use wifi_offload_rpi.Api.Lifecycle.{Listener}
use wifi_offload_rpi.Daemon.{World}

-- A kernel in which rules and endpoints are no routes.
pub record RoutesApart (netlink : Netlink) (genl : Genl netlink.Net) (laws : RouteLaws netlink)
    : Type 0 where
  pub by_old_rule :
      (mark table table' : ℕ) (net : netlink.Net)
      → laws.default_of table' (netlink.exchange (old_rule mark table) net).1
        ≡ laws.default_of table' net
  pub by_get_family :
      (table : ℕ) (net : netlink.Net)
      → laws.default_of table (genl.get_family net).1.1 ≡ laws.default_of table net
  pub by_flush :
      (family table : ℕ) (net : netlink.Net)
      → laws.default_of table (genl.command family flush_addrs net).1 ≡ laws.default_of table net

module _ (platform : Platform) (socket_path : Text) (course : Course platform)
    (classes : List PathClassConfig) where
  open platform use {netlink, genl, iptc, files}

  -- On a kernel in which rules and endpoints are no routes: when the daemon has stopped its parts and
  -- cleaned up after a signal, every table has the default route that it had when the signal came.
  pub finish-default_of :
      (laws : RouteLaws netlink) (apart : RoutesApart netlink genl laws) (table : ℕ) (l : Listener)
      (w : World netlink.Net) (m : Machine platform)
      → laws.default_of table (finish platform socket_path course classes l w m).machine.net
        ≡ laws.default_of table w.net
  unfolding finish cleanup
  finish-default_of laws apart table l w m =
      let same : netlink.Net → Type 0 =
        λ net. laws.default_of table net ≡ laws.default_of table w.net in
      remove_ip_rules-preserves netlink same
        (λ mark table' net h. apart.by_old_rule mark table' table net ∙ h) classes _
        (remove_endpoints-preserves netlink genl same (λ net h. apart.by_get_family table net ∙ h)
          (λ family net h. apart.by_flush family table net ∙ h) w.net refl)
