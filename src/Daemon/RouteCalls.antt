-- ===== src/Daemon/RouteCalls.antt =====
-- What the calls of onPathUp (main.cpp) do to the default routes of the kernel.
use wifi_offload_rpi.Prelude.{
  Bool-cases, List, Option, Text, inl, inr, refl, some, ℕ, ◌==◌, ◌≡◌, ◌≢◌, ◌⊎◌,
}
use wifi_offload_rpi.Types.{PathClassConfig}
use wifi_offload_rpi.Routing.Gateway.{query_gateway_for_iface}
use wifi_offload_rpi.Mptcp.{Genl}
use wifi_offload_rpi.Mptcp.Preserved.{IsUntouched, add_endpoints-preserves}
use wifi_offload_rpi.Routing.Netlink.{Netlink}
use wifi_offload_rpi.Routing.Netlink.Routes.{
  RouteLaws, add_default_route-default_of, add_default_route-others,
}
use wifi_offload_rpi.Daemon.{Surroundings, endpoints_up, route_up}

-- The messages of the endpoints leave the routes alone.
abbrev pub EndpointsApart : (netlink : Netlink) → Genl netlink.Net → RouteLaws netlink → Type 0
EndpointsApart netlink genl laws =
    (table : ℕ) (route : Option Text)
    → IsUntouched netlink genl (λ net. laws.default_of table net ≡ route)

module _ (netlink : Netlink) (genl : Genl netlink.Net) (laws : RouteLaws netlink)
    (apart : EndpointsApart netlink genl laws) (word_bits : ℕ) (around : Surroundings)
    (classes : List PathClassConfig) where
  open netlink use {Net}

  pub endpoints_up-default_of :
      (cls : PathClassConfig) (table : ℕ) (net : Net)
      → laws.default_of table (endpoints_up netlink genl word_bits around classes cls net)
        ≡ laws.default_of table net
  unfolding endpoints_up
  endpoints_up-default_of cls table net = elim (Bool-cases cls.mptcp_enabled) [
    | inl enabled ↦
        rw (enabled, endpoints_up)
          (add_endpoints-preserves netlink genl _ (apart table (laws.default_of table net)) classes
            net refl)
    | inr disabled ↦ rw (disabled, endpoints_up) refl
  ]

  pub route_up-default_of :
      (iface : Text) (table : ℕ) (net : Net)
      → let net' = route_up netlink genl word_bits around classes iface table net in
        (laws.default_of table net' ≡ some iface)
        ⊎ (laws.default_of table net' ≡ laws.default_of table net)
  unfolding route_up
  route_up-default_of iface table net =
      let gw = query_gateway_for_iface word_bits iface around.proc_net_route in
      elim (Bool-cases (gw == 0)) [
        | inl unknown ↦ rw (unknown, route_up) (inr refl)
        | inr known ↦
            rw (known, route_up) (add_default_route-default_of netlink laws iface gw table net)
      ]

  pub route_up-others :
      (iface : Text) (table table' : ℕ) (net : Net)
      → table ≢ table'
      → laws.default_of table' (route_up netlink genl word_bits around classes iface table net)
        ≡ laws.default_of table' net
  unfolding route_up
  route_up-others iface table table' net n =
      let gw = query_gateway_for_iface word_bits iface around.proc_net_route in
      elim (Bool-cases (gw == 0)) [
        | inl unknown ↦ rw (unknown, route_up) refl
        | inr known ↦
            rw (known, route_up) (add_default_route-others netlink laws iface gw table table' net n)
      ]
